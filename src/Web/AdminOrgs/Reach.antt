-- ===== src/Web/AdminOrgs/Reach.antt =====
-- The life of the organizations under the requests of administrators and users
-- (apps/server/internal/web/admin_orgs.go and orgs.go), one request after another.
use pf_identity.Common.{ℕ, ◌≤◌, String, ◌≡◌, sym, arith, Option}
use pf_identity.Config.{Config}
use pf_identity.Domain.{ok, Organization}
use pf_identity.Platform.{Platform}
use pf_identity.Store.{new_store}
use pf_identity.Store.Orgs.{get_organization}
use pf_identity.Web.AdminOrgs.{
  admin_create_organization, admin_add_member, admin_update_member, admin_remove_member, OrgInput,
  MemberInput, count_org_owners, handle_admin_create_organization, handle_admin_add_member,
  handle_admin_update_member, handle_admin_remove_member,
}
use pf_identity.Web.AdminOrgs.Founded.{
  admin_create_organization-IsOwned, admin_add_member-IsOwned, handle_create_organization-IsOwned,
}
use pf_identity.Web.AdminOrgs.Kept.{IsOwned, IsOwned-frame, new_store-IsOwned}
use pf_identity.Web.AdminOrgs.Led.{
  count_org_owners-owners, admin_update_member-IsOwned, admin_remove_member-IsOwned, stays,
}
use pf_identity.Web.AdminOrgs.Owners.{owners}
use pf_identity.Web.Http.{Request, Response, Flow, next, stop, answers}
use pf_identity.Web.Orgs.{handle_create_organization}
use pf_identity.World.{World}

-- A handler's state is the state of its steps.
handler-IsOwned :
    (done : World × Flow Response)
    → IsOwned done.0.store
    → IsOwned (answers (λ w. done) done.0).0.store
handler-IsOwned (w, next x) v = v
handler-IsOwned (w, stop x) v = v

module _ (p : Platform) (cfg : Config) where
  -- From one state to the next: a request that founds an organization or writes members, answered
  -- in whatever way, or anything that leaves organizations and members alone.
  pub data Step : World → World → Type 0 where
    founds :
        (r : Request) (body : Option String) (w : World)
        → Step w (handle_create_organization p r body w).0
    admin_founds :
        (r : Request) (body : Option OrgInput) (w : World)
        → Step w (handle_admin_create_organization p cfg r body w).0
    adds :
        (r : Request) (body : Option MemberInput) (w : World)
        → Step w (handle_admin_add_member p cfg r body w).0
    updates :
        (r : Request) (body : Option String) (w : World)
        → Step w (handle_admin_update_member p cfg r body w).0
    removes : (r : Request) (w : World) → Step w (handle_admin_remove_member p cfg r w).0
    elsewhere :
        (w w' : World)
        → w'.store.orgs ≡ w.store.orgs
        → w'.store.org_members ≡ w.store.org_members
        → Step w w'

  -- The states that requests lead to, from a server with an empty store.
  pub data Reach : World → Type 0 where
    starts : (w : World) → w.store ≡ new_store → Reach w
    follows : (w w' : World) → Reach w → Step w w' → Reach w'

  Step-IsOwned : (w w' : World) → Step w w' → IsOwned w.store → IsOwned w'.store
  unfolding handle_admin_create_organization handle_admin_add_member handle_admin_update_member
      handle_admin_remove_member
  Step-IsOwned w w' (founds r body u) v = handle_create_organization-IsOwned p r body u v
  Step-IsOwned w w' (admin_founds r body u) v =
      handler-IsOwned (admin_create_organization p cfg r body u)
        (admin_create_organization-IsOwned p cfg r body u v)
  Step-IsOwned w w' (adds r body u) v =
      handler-IsOwned (admin_add_member p cfg r body u) (admin_add_member-IsOwned p cfg r body u v)
  Step-IsOwned w w' (updates r body u) v =
      handler-IsOwned (admin_update_member p cfg r body u)
        (admin_update_member-IsOwned p cfg r body u v)
  Step-IsOwned w w' (removes r u) v =
      handler-IsOwned (admin_remove_member p cfg r u) (admin_remove_member-IsOwned p cfg r u v)
  Step-IsOwned w w' (elsewhere u u' os ms) v = IsOwned-frame u.store u'.store os ms v

  Reach-IsOwned : (w : World) → Reach w → IsOwned w.store
  Reach-IsOwned w (starts u empty) = stays new_store-IsOwned (sym empty)
  Reach-IsOwned w (follows u u' h s) = Step-IsOwned u u' s (Reach-IsOwned u h)

  -- No organization is ever without an owner. From an empty store, let requests that found
  -- organizations and add, change or remove members be handled one after another, in whatever order
  -- and with whatever answers, and between them anything that leaves organizations and members
  -- alone: an organization that is stored has at least one owner.
  pub Reach-count_org_owners :
      (w : World) (id : String) (org : Organization)
      → Reach w
      → get_organization w.store id ≡ ok org
      → (n : ℕ) × (count_org_owners w.store id ≡ ok n) × (1 ≤ n)
  unfolding get_organization
  Reach-count_org_owners w id org h here =
      let v = Reach-IsOwned w h in
      let (ms, found) = v.listed id org (ground arith) in
      (owners ms, count_org_owners-owners w.store id ms found, (v.led id ms found).1)
