-- ===== src/Store/History/Accounts.antt =====
-- Accounts over a history: the e-mail index stays right.
use pf_identity.Common.{String, ◌≡◌, List, [], ◌∷◌, none, arith, find}
use pf_identity.Store.{Store, new_store}
use pf_identity.Store.Codes.{put_code, take_code}
use pf_identity.Store.History.{Call, creates, disables, takes_code, step, run}
use pf_identity.Store.Users.Index.{
  IsIndexed, new_store-IsIndexed, create-IsIndexed, set_user_disabled-IsIndexed,
}
use pf_identity.Store.Sessions.{
  put_session, delete_session, forget_clients, add_session_client, set_session_active_org,
  set_session_active_org_by_sid,
}
use pf_identity.Store.Clients.{create_client, update_client, set_client_secret}
use pf_identity.Store.Tokens.{put_refresh, take_refresh, revoke_family, put_access}
use pf_identity.Store.Consents.{put_consent}
use pf_identity.Store.Audits.{append_audit}
use pf_identity.Store.Orgs.{
  create_organization, add_organization_member, update_organization_member_role,
  remove_organization_member,
}

-- The call is not about accounts.
abbrev LeavesUsers : Call → Type 0
LeavesUsers (creates u) = ⊥
LeavesUsers (disables id b) = ⊥
LeavesUsers _ = Unit

step-users :
    (lower : String → String) (s : Store) (c : Call)
    → LeavesUsers c
    → ((step lower s c).users ≡ s.users) × ((step lower s c).by_email ≡ s.by_email)
unfolding step put_session delete_session forget_clients add_session_client set_session_active_org
    set_session_active_org_by_sid create_client update_client set_client_secret put_refresh
    take_refresh revoke_family put_access put_consent append_audit create_organization
    add_organization_member update_organization_member_role remove_organization_member put_code
    take_code
step-users lower s (creates u) k = absurd k
step-users lower s (disables id b) k = absurd k
step-users lower s (takes_code h) k = ground arith
step-users lower s c k = ground arith

module _ (to_lower : String → String)
    (to_lower_idem : (e : String) → to_lower (to_lower e) ≡ to_lower e) where
  abbrev IsGood : Store → Type 0
  IsGood = IsIndexed to_lower

  -- Each account of the history is created under an id that no account has at that time.
  abbrev pub HasFreshIds : Store → List Call → Type 0
  HasFreshIds s [] = Unit
  HasFreshIds s (creates u ∷ cs) =
      (find s.users u.id ≡ none) × HasFreshIds (step to_lower s (creates u)) cs
  HasFreshIds s (c ∷ cs) = HasFreshIds (step to_lower s c) cs

  IsGood-frame : (s t : Store) → t.users ≡ s.users → t.by_email ≡ s.by_email → IsGood s → IsGood t
  IsGood-frame s t us es v = record {
    entry = λ e id h. rw us (v.entry e id (rw es at h));
    account = λ id u h. rw es (v.account id u (rw us at h));
  }

  step-IsGood :
      (s : Store) (c : Call) (cs : List Call)
      → HasFreshIds s (c ∷ cs)
      → IsGood s
      → IsGood (step to_lower s c)
  unfolding step
  step-IsGood s (creates u) cs h v = create-IsIndexed to_lower to_lower_idem s u h.0 v
  step-IsGood s (disables id b) cs h v = set_user_disabled-IsIndexed to_lower to_lower_idem s id b v
  step-IsGood s c cs h v =
      let (us, es) = step-users to_lower s c tt in IsGood-frame s (step to_lower s c) us es v

  HasFreshIds-tail :
      (s : Store) (c : Call) (cs : List Call)
      → HasFreshIds s (c ∷ cs)
      → HasFreshIds (step to_lower s c) cs
  HasFreshIds-tail s (creates u) cs h = h.1
  HasFreshIds-tail s c cs h = h

  run-IsGood :
      (s : Store) (cs : List Call) → HasFreshIds s cs → IsGood s → IsGood (run to_lower s cs)
  unfolding run
  run-IsGood s [] h v = v
  run-IsGood s (c ∷ cs) h v =
      run-IsGood (step to_lower s c) cs (HasFreshIds-tail s c cs h) (step-IsGood s c cs h v)

  -- From an empty store, any history whose accounts are created under fresh ids keeps the e-mail
  -- index right, so no two accounts ever share an address.
  pub run-IsIndexed :
      (cs : List Call) → HasFreshIds new_store cs → IsIndexed to_lower (run to_lower new_store cs)
  run-IsIndexed cs h = run-IsGood new_store cs h (new_store-IsIndexed to_lower)
