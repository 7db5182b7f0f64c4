-- ===== src/Store/History/SingleUse.antt =====
-- A code, and a refresh token, is handed out once in any history.
use pf_identity.Common.{
  ℕ, String, ◌+◌, ◌≤◌, ◌≡◌, ◌≢◌, refl, sym, ◌∙◌, true, List, [], ◌∷◌, some, inl, inr, arith, ◌==◌,
  eq_iff, find, find-store_at, All, if◌then◌else◌, Option-cases,
}
use pf_identity.Domain.{ok, err, AuthCode}
use pf_identity.Store.{Store, Updated}
use pf_identity.Store.Codes.{put_code, take_code}
use pf_identity.Store.History.{Call, creates, takes_code, puts_code, step, run}
use pf_identity.Store.Users.{create, set_user_disabled}
use pf_identity.Store.Sessions.{
  put_session, delete_session, forget_clients, add_session_client, set_session_active_org,
  set_session_active_org_by_sid,
}
use pf_identity.Store.Clients.{create_client, update_client, set_client_secret}
use pf_identity.Store.Tokens.{put_refresh, take_refresh, revoke_family, put_access}
use pf_identity.Store.Consents.{put_consent}
use pf_identity.Store.Audits.{append_audit}
use pf_identity.Store.Orgs.{
  create_organization, add_organization_member, update_organization_member_role,
  remove_organization_member,
}

-- 1 where the call returned a row, 0 where it returned an error.
abbrev pub succeeded : {A : Type 0} → Updated A → ℕ
succeeded (s, ok a) = 1
succeeded (s, err e) = 0

-- How often a history takes the code `h` with success.
unfoldable pub code_takes : (String → String) → String → Store → List Call → ℕ
code_takes lower h s [] = 0
code_takes lower h s (takes_code k ∷ cs) =
    let rest = code_takes lower h (step lower s (takes_code k)) cs in
    (if k == h then succeeded (take_code s k) else 0) + rest
code_takes lower h s (c ∷ cs) = code_takes lower h (step lower s c) cs

-- The code `h` is not stored again by this call.
abbrev pub KeepsCode : String → Call → Type 0
KeepsCode h (puts_code c) = c.hash ≢ h
KeepsCode h _ = Unit

-- The row of `h` is missing or used up.
abbrev pub IsSpent : String → Store → Type 0
IsSpent h s = (c : AuthCode) → find s.codes h ≡ some c → c.used ≡ true

step-codes :
    (lower : String → String) (s : Store) (c : Call) (h : String)
    → KeepsCode h c
    → ((k : String) → c ≢ takes_code k)
    → find (step lower s c).codes h ≡ find s.codes h
unfolding step create set_user_disabled put_session delete_session forget_clients add_session_client
    set_session_active_org set_session_active_org_by_sid create_client update_client
    set_client_secret put_refresh take_refresh revoke_family put_access put_consent append_audit
    create_organization add_organization_member update_organization_member_role
    remove_organization_member put_code
step-codes lower s (creates u) h k n = ground arith
step-codes lower s (puts_code c) h k n =
    ground (arith, find-store_at s.codes c.hash h c, eq_iff c.hash h)
step-codes lower s (takes_code j) h k n = absurd (n j refl)
step-codes lower s c h k n = ground arith

take_code-IsSpent : (s : Store) (k h : String) → IsSpent h s → IsSpent h (take_code s k).0
unfolding take_code
take_code-IsSpent s k h spent c e = elim (Option-cases (find s.codes k)) [
  | inl missing ↦ spent c (ground arith)
  | inr (d, found) ↦ ground (arith, find-store_at s.codes k h (record d { used = true }), spent c)
]

step-IsSpent :
    (lower : String → String) (s : Store) (c : Call) (h : String)
    → KeepsCode h c
    → IsSpent h s
    → IsSpent h (step lower s c)
unfolding step
step-IsSpent lower s (takes_code k) h keep spent = take_code-IsSpent s k h spent
step-IsSpent lower s c h keep spent =
    λ d e. spent d (sym (step-codes lower s c h keep (λ k. cc)) ∙ e)

take_code_spent : (s : Store) (h : String) → IsSpent h s → succeeded (take_code s h) ≡ 0
unfolding take_code
take_code_spent s h spent = elim (Option-cases (find s.codes h)) [
  | inl missing ↦ rw (missing, take_code)
  | inr (c, found) ↦ rw (found, take_code) (rw (spent c found))
]

-- Taking a code leaves it spent, whether or not the call succeeds.
pub IsSpent-take_code : (s : Store) (h : String) → IsSpent h (take_code s h).0
unfolding take_code
IsSpent-take_code s h c e = elim (Option-cases (find s.codes h)) [
  | inl missing ↦ ground arith
  | inr (d, found) ↦
      ground (arith, find-store_at s.codes h h (record d { used = true }), eq_iff h h)
]

after_take :
    (lower : String → String) (s : Store) (h : String) → IsSpent h (step lower s (takes_code h))
unfolding step
after_take lower s h = IsSpent-take_code s h

code_takes_spent :
    (lower : String → String) (h : String) (s : Store) (cs : List Call)
    → All (KeepsCode h) cs
    → IsSpent h s
    → code_takes lower h s cs ≡ 0
unfolding code_takes
code_takes_spent lower h s [] k spent = refl
code_takes_spent lower h s (takes_code j ∷ cs) k spent = ground (
  arith,
  eq_iff j h,
  take_code_spent s h spent,
  code_takes_spent lower h (step lower s (takes_code j)) cs k.1
      (step-IsSpent lower s (takes_code j) h tt spent),
)
code_takes_spent lower h s (c ∷ cs) k spent =
    code_takes_spent lower h (step lower s c) cs k.1 (step-IsSpent lower s c h k.0 spent)

-- Whatever calls other requests make in between, and in whatever order, one stored authorization
-- code is handed out at most once, as long as no call stores a row under the same hash again.
pub code_takes_le_one :
    (lower : String → String) (h : String) (s : Store) (cs : List Call)
    → All (KeepsCode h) cs
    → code_takes lower h s cs ≤ 1
unfolding code_takes
code_takes_le_one lower h s [] k = omega arith
code_takes_le_one lower h s (takes_code j ∷ cs) k = ground (
  arith,
  eq_iff j h,
  code_takes_spent lower h (step lower s (takes_code h)) cs k.1 (after_take lower s h),
  code_takes_le_one lower h (step lower s (takes_code j)) cs k.1,
)
code_takes_le_one lower h s (c ∷ cs) k = code_takes_le_one lower h (step lower s c) cs k.1

pub run-IsSpent :
    (lower : String → String) (s : Store) (cs : List Call) (h : String)
    → All (KeepsCode h) cs
    → IsSpent h s
    → IsSpent h (run lower s cs)
unfolding run
run-IsSpent lower s [] h k spent = spent
run-IsSpent lower s (c ∷ cs) h k spent =
    run-IsSpent lower (step lower s c) cs h k.1 (step-IsSpent lower s c h k.0 spent)
