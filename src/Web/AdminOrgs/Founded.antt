-- ===== src/Web/AdminOrgs/Founded.antt =====
-- The handlers of apps/server/internal/web (admin_orgs.go and orgs.go) that found an organization or
-- add a member to one, on the stores of Kept.
use pf_identity.Common.{
  String, ◌≡◌, refl, ◌||◌, Option, inl, inr, arith, ◌==◌, Bool-cases, Option-cases, find, ltb, ◌⊎◌,
}
use Prim.Native.String.{len}
use pf_identity.Common.Text.{trim_space}
use pf_identity.Config.{Config}
use pf_identity.Domain.{Organization, OrganizationMembership, org_role_owner, Result-cases}
use pf_identity.Org.{create}
use pf_identity.Platform.{Platform}
use pf_identity.Store.{Store}
use pf_identity.Store.Orgs.{create_organization, add_organization_member, get_organization}
use pf_identity.Store.Users.{get_by_email, get_by_id}
use pf_identity.Web.AdminOrgs.{
  OrgInput, MemberInput, is_role, default_role, named_user, admin_create_organization,
  admin_add_member,
}
use pf_identity.Web.Admin.{missing_or_store}
use pf_identity.Web.AdminOrgs.Kept.{IsOwned, found-IsOwned, add_member-IsOwned}
use pf_identity.Web.AdminOrgs.Led.{stays, require_admin-cases}
use pf_identity.Web.Current.{bearer_user}
use pf_identity.Web.Http.{Request, Response, http_error, fresh_id, next, stop}
use pf_identity.Web.Orgs.{with_bearer, handle_create_organization}
use pf_identity.World.{World, new_id}

module _ (p : Platform) where
  -- The account that is named is read, and the state stays as it was.
  named_user-cases :
      (id email nobody missing : String) (w : World)
      → ((x : Response) × (named_user p id email nobody missing w ≡ (w, stop x)))
        ⊎ ((found : String) × (named_user p id email nobody missing w ≡ (w, next found)))
  unfolding named_user
  named_user-cases id email nobody missing w = elim (Bool-cases (trim_space id == "")) [
    | inr given ↦ elim (Result-cases (get_by_id w.store (trim_space id))) [
      | inl (a, here) ↦ inr (trim_space id, ground arith)
      | inr (x, absent) ↦ inl (missing_or_store missing x, ground arith)
    ]
    | inl blank ↦ elim (Bool-cases (trim_space (p.to_lower email) == "")) [
      | inl bare ↦ inl (http_error 400 nobody, ground arith)
      | inr named ↦
          elim (Result-cases (get_by_email p.to_lower w.store (trim_space (p.to_lower email)))) [
            | inl (a, here) ↦ inr (a.id, ground arith)
            | inr (x, absent) ↦ inl (missing_or_store missing x, ground arith)
          ]
    ]
  ]

  -- The organization that a founder gets, and the membership.
  abbrev founded : World → String → Organization
  founded w name = record { id = p.ulid w.made; name = name; created_at = w.now }

  abbrev founder : World → String → OrganizationMembership
  founder w user_id = record {
    org_id = p.ulid w.made;
    user_id = user_id;
    role = org_role_owner;
    joined_at = w.now;
  }

  abbrev after_founding : World → String → String → Store
  after_founding w name user_id =
      (add_organization_member (create_organization w.store (founded w name)).0
        (founder w user_id)).0

  after_founding-IsOwned :
      (w : World) (name user_id : String)
      → IsOwned w.store
      → IsOwned (after_founding w name user_id)
  after_founding-IsOwned w name user_id v =
      found-IsOwned w.store (founded w name) (founder w user_id) refl refl v

  module _ (cfg : Config) (r : Request) where
    pub admin_create_organization-IsOwned :
        (body : Option OrgInput) (w : World)
        → IsOwned w.store
        → IsOwned (admin_create_organization p cfg r body w).0.store
    unfolding admin_create_organization fresh_id create_organization
    admin_create_organization-IsOwned body w v = elim (require_admin-cases p cfg r w) [
      | inr (x, refused) ↦ stays v (ground arith)
      | inl admin ↦ elim (Option-cases body) [
        | inl garbled ↦ stays v (ground arith)
        | inr (input, given) ↦
            let name = trim_space input.name in
            elim (Bool-cases (name == "" || ltb 120 (len name))) [
              | inl unfit ↦ stays v (ground arith)
              | inr fit ↦
                  elim (named_user-cases input.owner_user_id input.owner_email
                    "owner_user_id or owner_email is required" "owner not found" w) [
                      | inl (x, nobody) ↦ stays v (ground arith)
                      | inr (user_id, owner) ↦
                          let new = after_founding-IsOwned w name user_id v in
                          let s = (create_organization w.store (founded w name)).0 in
                          elim (Result-cases (add_organization_member s (founder w user_id)).1) [
                            | inl (x, done) ↦ stays new (ground arith)
                            | inr (x, taken) ↦ stays new (ground arith)
                          ]
                    ]
            ]
      ]
    ]

    pub admin_add_member-IsOwned :
        (body : Option MemberInput) (w : World)
        → IsOwned w.store
        → IsOwned (admin_add_member p cfg r body w).0.store
    unfolding admin_add_member get_organization
    admin_add_member-IsOwned body w v = elim (require_admin-cases p cfg r w) [
      | inr (x, refused) ↦ stays v (ground arith)
      | inl admin ↦ elim (Option-cases (find w.store.orgs (r.path_value "id"))) [
        | inl missing ↦ stays v (ground arith)
        | inr (org, here) ↦ elim (Option-cases body) [
          | inl garbled ↦ stays v (ground arith)
          | inr (input, given) ↦ elim (Bool-cases (is_role (default_role input.role))) [
            | inr strange ↦ stays v (ground arith)
            | inl known ↦
                elim (named_user-cases input.user_id input.email "user_id or email is required"
                  "user not found" w) [
                    | inl (x, nobody) ↦ stays v (ground arith)
                    | inr (user_id, named) ↦
                        let m : OrganizationMembership = record {
                          org_id = r.path_value "id";
                          user_id = user_id;
                          role = default_role input.role;
                          joined_at = w.now;
                        } in
                        let new = add_member-IsOwned w.store org m here v in
                        elim (Result-cases (add_organization_member w.store m).1) [
                          | inl (x, done) ↦ stays new (ground arith)
                          | inr (x, taken) ↦ stays new (ground arith)
                        ]
                  ]
          ]
        ]
      ]
    ]

  pub handle_create_organization-IsOwned :
      (r : Request) (body : Option String) (w : World)
      → IsOwned w.store
      → IsOwned (handle_create_organization p r body w).0.store
  unfolding handle_create_organization create with_bearer create_organization new_id
  handle_create_organization-IsOwned r body w v = elim (Option-cases (bearer_user p r w)) [
    | inl nobody ↦ stays v (ground arith)
    | inr (u, signed) ↦ elim (Option-cases body) [
      | inl garbled ↦ stays v (ground arith)
      | inr (raw, given) ↦
          let name = trim_space raw in
          elim (Bool-cases (name == "" || ltb 120 (len name))) [
            | inl unfit ↦ stays v (ground arith)
            | inr fit ↦
                let s = (create_organization w.store (founded w name)).0 in
                let new = after_founding-IsOwned w name u.0.id v in
                elim (Result-cases (add_organization_member s (founder w u.0.id)).1) [
                  | inl (x, done) ↦ stays new (ground arith)
                  | inr (x, taken) ↦ stays new (ground arith)
                ]
          ]
    ]
  ]
