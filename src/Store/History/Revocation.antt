-- ===== src/Store/History/Revocation.antt =====
-- Refresh tokens over a history: rotation hands a token out once.
use pf_identity.Common.{
  ℕ, String, ◌+◌, ◌≤◌, ◌≡◌, ◌≢◌, refl, true, List, [], ◌∷◌, some, inl, inr, arith, ◌==◌, eq_iff,
  find, find-store_at, find-update_all, All, if◌then◌else◌, Option-cases,
}
use pf_identity.Domain.{RefreshToken}
use pf_identity.Store.{Store}
use pf_identity.Store.Codes.{put_code, take_code}
use pf_identity.Store.History.{
  Call, creates, takes_refresh, puts_refresh, revokes_family, step, run,
}
use pf_identity.Store.History.SingleUse.{succeeded}
use pf_identity.Store.Users.{create, set_user_disabled}
use pf_identity.Store.Sessions.{
  put_session, delete_session, forget_clients, add_session_client, set_session_active_org,
  set_session_active_org_by_sid,
}
use pf_identity.Store.Clients.{create_client, update_client, set_client_secret}
use pf_identity.Store.Tokens.{put_refresh, take_refresh, revoke_family, revoke_member, put_access}
use pf_identity.Store.Consents.{put_consent}
use pf_identity.Store.Audits.{append_audit}
use pf_identity.Store.Orgs.{
  create_organization, add_organization_member, update_organization_member_role,
  remove_organization_member,
}

-- How often a history takes the refresh token `h` with success.
unfoldable pub refresh_takes : (String → String) → String → Store → List Call → ℕ
refresh_takes lower h s [] = 0
refresh_takes lower h s (takes_refresh k ∷ cs) =
    let rest = refresh_takes lower h (step lower s (takes_refresh k)) cs in
    (if k == h then succeeded (take_refresh s k) else 0) + rest
refresh_takes lower h s (c ∷ cs) = refresh_takes lower h (step lower s c) cs

-- The refresh token `h` is not stored again by this call.
abbrev pub KeepsRefresh : String → Call → Type 0
KeepsRefresh h (puts_refresh t) = t.hash ≢ h
KeepsRefresh h _ = Unit

-- The row of `h`, if there is one, is revoked.
abbrev pub IsRevoked : String → Store → Type 0
IsRevoked h s = (t : RefreshToken) → find s.refresh h ≡ some t → t.revoked ≡ true

-- A call that writes no refresh token leaves them all alone.
abbrev LeavesRefresh : Call → Type 0
LeavesRefresh (puts_refresh t) = ⊥
LeavesRefresh (takes_refresh h) = ⊥
LeavesRefresh (revokes_family f) = ⊥
LeavesRefresh _ = Unit

step-refresh :
    (lower : String → String) (s : Store) (c : Call)
    → LeavesRefresh c
    → (step lower s c).refresh ≡ s.refresh
unfolding step create set_user_disabled put_session delete_session forget_clients add_session_client
    set_session_active_org set_session_active_org_by_sid create_client update_client
    set_client_secret put_access put_consent append_audit create_organization
    add_organization_member update_organization_member_role remove_organization_member put_code
    take_code
step-refresh lower s (creates u) k = ground arith
step-refresh lower s (puts_refresh t) k = absurd k
step-refresh lower s (takes_refresh h) k = absurd k
step-refresh lower s (revokes_family f) k = absurd k
step-refresh lower s c k = ground arith

revoke_member-revoked :
    (f : String) (t : RefreshToken) → t.revoked ≡ true → (revoke_member f t).revoked ≡ true
unfolding revoke_member
revoke_member-revoked f t r = ground arith

-- What each of the three writers of refresh tokens does to the row of `h`.
take_refresh-IsRevoked :
    (s : Store) (k h : String) → IsRevoked h s → IsRevoked h (take_refresh s k).0
unfolding take_refresh
take_refresh-IsRevoked s k h dead t e = elim (Option-cases (find s.refresh k)) [
  | inl missing ↦ dead t (ground arith)
  | inr (d, found) ↦
      ground (arith, find-store_at s.refresh k h (record d { revoked = true }), dead t)
]

revoke_family-IsRevoked :
    (s : Store) (f h : String) → IsRevoked h s → IsRevoked h (revoke_family s f).0
unfolding revoke_family
revoke_family-IsRevoked s f h dead t e = elim (Option-cases (find s.refresh h)) [
  | inl missing ↦ ground (arith, find-update_all (revoke_member f) s.refresh h)
  | inr (d, found) ↦ ground (
    arith,
    find-update_all (revoke_member f) s.refresh h,
    dead d found,
    revoke_member-revoked f d,
  )
]

put_refresh-IsRevoked :
    (s : Store) (r : RefreshToken) (h : String)
    → r.hash ≢ h
    → IsRevoked h s
    → IsRevoked h (put_refresh s r).0
unfolding put_refresh
put_refresh-IsRevoked s r h k dead t e =
    ground (arith, find-store_at s.refresh r.hash h r, eq_iff r.hash h, dead t)

step-IsRevoked :
    (lower : String → String) (s : Store) (c : Call) (h : String)
    → KeepsRefresh h c
    → IsRevoked h s
    → IsRevoked h (step lower s c)
unfolding step
step-IsRevoked lower s (takes_refresh k) h keep dead = take_refresh-IsRevoked s k h dead
step-IsRevoked lower s (revokes_family f) h keep dead = revoke_family-IsRevoked s f h dead
step-IsRevoked lower s (puts_refresh r) h keep dead = put_refresh-IsRevoked s r h keep dead
step-IsRevoked lower s c h keep dead = λ t e. dead t (ground (arith, step-refresh lower s c tt))

pub run-IsRevoked :
    (lower : String → String) (s : Store) (cs : List Call) (h : String)
    → All (KeepsRefresh h) cs
    → IsRevoked h s
    → IsRevoked h (run lower s cs)
unfolding run
run-IsRevoked lower s [] h k dead = dead
run-IsRevoked lower s (c ∷ cs) h k dead =
    run-IsRevoked lower (step lower s c) cs h k.1 (step-IsRevoked lower s c h k.0 dead)

pub take_refresh_revoked :
    (s : Store) (h : String) → IsRevoked h s → succeeded (take_refresh s h) ≡ 0
unfolding take_refresh
take_refresh_revoked s h dead = elim (Option-cases (find s.refresh h)) [
  | inl missing ↦ rw (missing, take_refresh)
  | inr (t, found) ↦ rw (found, take_refresh) (rw (dead t found))
]

-- Taking a token leaves it revoked, whether or not the call succeeds.
pub IsRevoked-take_refresh : (s : Store) (h : String) → IsRevoked h (take_refresh s h).0
unfolding take_refresh
IsRevoked-take_refresh s h t e = elim (Option-cases (find s.refresh h)) [
  | inl missing ↦ ground arith
  | inr (d, found) ↦
      ground (arith, find-store_at s.refresh h h (record d { revoked = true }), eq_iff h h)
]

refresh_takes_revoked :
    (lower : String → String) (h : String) (s : Store) (cs : List Call)
    → All (KeepsRefresh h) cs
    → IsRevoked h s
    → refresh_takes lower h s cs ≡ 0
unfolding refresh_takes
refresh_takes_revoked lower h s [] k dead = refl
refresh_takes_revoked lower h s (takes_refresh j ∷ cs) k dead = ground (
  arith,
  eq_iff j h,
  take_refresh_revoked s h dead,
  refresh_takes_revoked lower h (step lower s (takes_refresh j)) cs k.1
      (step-IsRevoked lower s (takes_refresh j) h tt dead),
)
refresh_takes_revoked lower h s (c ∷ cs) k dead =
    refresh_takes_revoked lower h (step lower s c) cs k.1 (step-IsRevoked lower s c h k.0 dead)

after_take :
    (lower : String → String) (s : Store) (h : String)
    → IsRevoked h (step lower s (takes_refresh h))
unfolding step
after_take lower s h = IsRevoked-take_refresh s h

-- Whatever calls other requests make in between, and in whatever order, one refresh token is
-- rotated at most once, as long as no call stores a row under the same hash again.
pub refresh_takes_le_one :
    (lower : String → String) (h : String) (s : Store) (cs : List Call)
    → All (KeepsRefresh h) cs
    → refresh_takes lower h s cs ≤ 1
unfolding refresh_takes
refresh_takes_le_one lower h s [] k = omega arith
refresh_takes_le_one lower h s (takes_refresh j ∷ cs) k = ground (
  arith,
  eq_iff j h,
  refresh_takes_revoked lower h (step lower s (takes_refresh h)) cs k.1 (after_take lower s h),
  refresh_takes_le_one lower h (step lower s (takes_refresh j)) cs k.1,
)
refresh_takes_le_one lower h s (c ∷ cs) k = refresh_takes_le_one lower h (step lower s c) cs k.1
