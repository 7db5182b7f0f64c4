-- ===== src/Web/AdminOrgs/Last.antt =====
-- What the last owner of an organization is answered with: `handleAdminUpdateOrganizationMember` and
-- `handleAdminRemoveOrganizationMember` of apps/server/internal/web/admin_orgs.go.
use pf_identity.Common.{String, ◌≡◌, ◌≢◌, refl, true, false, some, arith, ◌==◌, eq_iff, Dict, find}
use pf_identity.Common.Text.{trim_space}
use pf_identity.Config.{Config}
use pf_identity.Domain.{ok, OrganizationMembership, org_role_owner, org_role_member}
use pf_identity.Platform.{Platform}
use pf_identity.Store.Orgs.{get_organization_membership}
use pf_identity.Web.Admin.{require_admin}
use pf_identity.Web.AdminOrgs.{
  guard_last_owner, admin_update_member, handle_admin_update_member, admin_remove_member,
  handle_admin_remove_member,
}
use pf_identity.Web.AdminOrgs.Led.{count_org_owners-owners}
use pf_identity.Web.AdminOrgs.Owners.{owners}
use pf_identity.Web.Current.{bearer}
use pf_identity.Web.Http.{Request, http_error, next}
use pf_identity.World.{World}

module _ (p : Platform) (cfg : Config) (r : Request) (w : World) (ms : Dict OrganizationMembership)
    (m : OrganizationMembership) (found : find w.store.org_members (r.path_value "id") ≡ some ms)
    (here : find ms (r.path_value "userId") ≡ some m) (on : cfg.admin_token ≢ "")
    (admin : bearer p r ≡ cfg.admin_token) (owns : m.role ≡ org_role_owner)
    (alone : owners ms ≡ 1) where
  current : get_organization_membership w.store (r.path_value "id") (r.path_value "userId") ≡ ok m
  unfolding get_organization_membership
  current = ground arith

  allowed : require_admin p cfg r w ≡ (w, next tt)
  unfolding require_admin
  allowed = ground (arith, eq_iff cfg.admin_token "", eq_iff (bearer p r) cfg.admin_token)

  -- The only owner of an organization stays, even against the administrator: a request to remove
  -- that member, and one to make it an ordinary member, is answered with 403, and the state stays
  -- as it was.
  pub last_owner_refused :
      (raw : String)
      → trim_space raw ≡ org_role_member
      → (handle_admin_remove_member p cfg r w ≡ (w, http_error 403 "cannot remove the last owner"))
        × (handle_admin_update_member p cfg r (some raw) w
            ≡ (w, http_error 403 "cannot demote the last owner"))
  unfolding handle_admin_remove_member admin_remove_member handle_admin_update_member
      admin_update_member guard_last_owner
  last_owner_refused raw demoted =
      let n = count_org_owners-owners w.store (r.path_value "id") ms found in
      let ordinary : (trim_space raw == org_role_owner) ≡ false = rw demoted refl in
      let known : (trim_space raw == org_role_member) ≡ true = rw demoted refl in
      let owner = eq_iff m.role org_role_owner in
      (
        ground (arith, allowed, current, n, owner),
        ground (arith, allowed, current, n, owner, ordinary, known),
      )
