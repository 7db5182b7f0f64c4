-- ===== src/Web/AdminOrgs/Led.antt =====
-- The handlers of apps/server/internal/web/admin_orgs.go that change or remove a member, on the stores
-- of Kept.
use pf_identity.Common.{
  if◌then◌else◌, subst, ◌+◌, ◌≤◌, String, ◌≡◌, Bool, false, not, ◌&&◌, Option, some, inl, inr,
  arith, ◌==◌, Bool-cases, Option-cases, Dict, find, values, leb, ◌⊎◌,
}
use pf_identity.Common.Text.{trim_space}
use pf_identity.Config.{Config}
use pf_identity.Domain.{ok, OrganizationMembership, org_role_owner, Result-cases}
use pf_identity.Platform.{Platform}
use pf_identity.Store.{Store}
use pf_identity.Store.Orgs.{
  joined_before, list_organization_members, get_organization_membership,
  update_organization_member_role, remove_organization_member,
}
use pf_identity.Web.Admin.{require_admin}
use pf_identity.Web.AdminOrgs.{
  count_org_owners, is_role, guard_last_owner, admin_update_member, admin_remove_member,
}
use pf_identity.Web.AdminOrgs.Kept.{IsOwned, update_role-IsOwned, remove_member-IsOwned}
use pf_identity.Web.AdminOrgs.Owners.{owner, owners, count_owners-sort}
use pf_identity.Web.Current.{bearer}
use pf_identity.Web.Http.{Request, Response, http_error, next, stop}
use pf_identity.World.{World}

pub count_org_owners-owners :
    (s : Store) (o : String) (ms : Dict OrganizationMembership)
    → find s.org_members o ≡ some ms
    → count_org_owners s o ≡ ok (owners ms)
unfolding count_org_owners list_organization_members
count_org_owners-owners s o ms h = ground (arith, count_owners-sort joined_before (values ms))

-- The store as it was.
pub stays : {s t : Store} → IsOwned s → s ≡ t → IsOwned t
stays v same = subst IsOwned same v

module _ (p : Platform) where
  -- What the guard on the last owner lets through: it leaves an owner.
  guard_last_owner-cases :
      (o text : String) (m : OrganizationMembership) (keeps : Bool) (w : World)
      (ms : Dict OrganizationMembership)
      → find w.store.org_members o ≡ some ms
      → 1 ≤ owners ms
      → ((x : Response) × (guard_last_owner p o m keeps text w ≡ (w, stop x)))
        ⊎ ((guard_last_owner p o m keeps text w ≡ (w, next tt))
            × (1 + owner m ≤ owners ms + (if keeps then 1 else 0)))
  unfolding guard_last_owner
  guard_last_owner-cases o text m keeps w ms found some_owner =
      let n = count_org_owners-owners w.store o ms found in
      elim (Bool-cases (m.role == org_role_owner && not keeps)) [
        | inr free ↦ inr (ground arith, ground arith)
        | inl bound ↦ elim (Bool-cases (leb (owners ms) 1)) [
          | inl last ↦ inl (http_error 403 text, ground (arith, n))
          | inr several ↦ inr (ground (arith, n), ground arith)
        ]
      ]

  -- The member that the handlers find.
  membership-found :
      (s : Store) (o u : String) (m : OrganizationMembership)
      → get_organization_membership s o u ≡ ok m
      → (ms : Dict OrganizationMembership) × (find s.org_members o ≡ some ms) × (find ms u ≡ some m)
  unfolding get_organization_membership
  membership-found s o u m h = elim (Option-cases (find s.org_members o)) [
    | inl missing ↦ absurd (ground arith)
    | inr (ms, found) ↦ (ms, found, ground arith)
  ]

  module _ (cfg : Config) (r : Request) where
    pub require_admin-cases :
        (w : World)
        → (require_admin p cfg r w ≡ (w, next tt))
          ⊎ ((text : String) × (require_admin p cfg r w ≡ (w, stop (http_error 401 text))))
    unfolding require_admin
    require_admin-cases w = elim (Bool-cases (cfg.admin_token == "")) [
      | inl off ↦ inr ("admin api disabled", ground arith)
      | inr on ↦ elim (Bool-cases (bearer p r == cfg.admin_token)) [
        | inl right ↦ inl (ground arith)
        | inr wrong ↦ inr ("unauthorized", ground arith)
      ]
    ]

    abbrev o : String
    o = r.path_value "id"

    abbrev u : String
    u = r.path_value "userId"

    pub admin_update_member-IsOwned :
        (body : Option String) (w : World)
        → IsOwned w.store
        → IsOwned (admin_update_member p cfg r body w).0.store
    unfolding admin_update_member
    admin_update_member-IsOwned body w v = elim (require_admin-cases w) [
      | inr (x, refused) ↦ stays v (ground arith)
      | inl admin ↦ elim (Option-cases body) [
        | inl garbled ↦ stays v (ground arith)
        | inr (raw, given) ↦ elim (Bool-cases (is_role (trim_space raw))) [
          | inr strange ↦ stays v (ground arith)
          | inl known ↦ elim (Result-cases (get_organization_membership w.store o u)) [
            | inr (x, missing) ↦ stays v (ground arith)
            | inl (m, current) ↦
                let (ms, found, here) = membership-found w.store o u m current in
                elim (guard_last_owner-cases o "cannot demote the last owner" m
                  (trim_space raw == org_role_owner) w ms found (v.led o ms found).1) [
                    | inl (x, last) ↦ stays v (ground arith)
                    | inr (passed, enough) ↦
                        let role = trim_space raw in
                        let new =
                          update_role-IsOwned w.store o u ms m found here v role (ground arith) in
                        elim (Result-cases (update_organization_member_role w.store o u role).1) [
                          | inl (x, done) ↦ stays new (ground arith)
                          | inr (x, failed) ↦ stays new (ground arith)
                        ]
                  ]
          ]
        ]
      ]
    ]

    pub admin_remove_member-IsOwned :
        (w : World) → IsOwned w.store → IsOwned (admin_remove_member p cfg r w).0.store
    unfolding admin_remove_member
    admin_remove_member-IsOwned w v = elim (require_admin-cases w) [
      | inr (x, refused) ↦ stays v (ground arith)
      | inl admin ↦ elim (Result-cases (get_organization_membership w.store o u)) [
        | inr (x, missing) ↦ stays v (ground arith)
        | inl (m, current) ↦
            let (ms, found, here) = membership-found w.store o u m current in
            elim (guard_last_owner-cases o "cannot remove the last owner" m false w ms found
              (v.led o ms found).1) [
                | inl (x, last) ↦ stays v (ground arith)
                | inr (passed, enough) ↦
                    let rest = remove_member-IsOwned w.store o u ms m found here v (ground arith) in
                    elim (Result-cases (remove_organization_member w.store o u).1) [
                      | inl (x, done) ↦ stays rest (ground arith)
                      | inr (x, failed) ↦ stays rest (ground arith)
                    ]
              ]
      ]
    ]
