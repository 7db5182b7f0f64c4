-- ===== src/Web/AdminOrgs.antt =====
-- The administration of organizations and their members:
-- apps/server/internal/web/admin_orgs.go.
pub mod Owners
pub mod Kept
pub mod Led
pub mod Founded
pub mod Reach
pub mod Last
use Prim.Native.String.{len}
use pf_identity.Common.{
  ℕ, suc, String, Bool, true, false, not, ◌&&◌, ◌||◌, List, [], ◌∷◌, Option, none, some, ◌==◌,
  if◌then◌else◌, ltb, leb, map,
}
use pf_identity.Common.Text.{trim_space}
use pf_identity.Config.{Config}
use pf_identity.Domain.{
  Result, ok, err, Error, OrgRole, org_role_owner, org_role_member, Organization,
  OrganizationMembership, User,
}
use pf_identity.Platform.{Platform}
use pf_identity.Store.{Store}
use pf_identity.Store.Orgs.{
  create_organization, add_organization_member, get_organization, list_organizations,
  list_organization_members, get_organization_membership, update_organization_member_role,
  remove_organization_member,
}
use pf_identity.Store.Users.{get_by_id, get_by_email}
use pf_identity.Web.Admin.{require_admin, decoded, missing_or_store, conflict_or_store}
use pf_identity.Web.Http.{
  Request, Response, http_error, json, no_content, H, Handler, pure, or_answer, or_refusal, refuse,
  answers, answer, fresh_id, get, ◌>>=◌, ◌>>◌,
}
use pf_identity.Web.Views.{
  AdminOrgMemberView, view_org, admin_org_list, admin_org, admin_members, admin_member,
}
use pf_identity.World.{World, ask, call}

pub record OrgInput : Type 0 where
  pub name : String
  pub owner_user_id : String
  pub owner_email : String

pub record MemberInput : Type 0 where
  pub user_id : String
  pub email : String
  pub role : String

-- The loop of `countOrgOwnersCtx`.
unfoldable pub count_owners : List OrganizationMembership → ℕ
count_owners [] = 0
count_owners (m ∷ ms) = let n = count_owners ms in if m.role == org_role_owner then suc n else n

unfoldable pub count_org_owners : Store → String → Result ℕ
unfolding count_owners
count_org_owners s org_id = elim (list_organization_members s org_id) [
  | err e ↦ err e
  | ok ms ↦ ok (count_owners ms)
]

-- Whether a role is one of the two.
abbrev pub is_role : OrgRole → Bool
is_role role = role == org_role_owner || role == org_role_member

-- `if role == "" { role = domain.OrgRoleMember }`
abbrev pub default_role : String → OrgRole
default_role raw = if trim_space raw == "" then org_role_member else trim_space raw

module _ (p : Platform) where
  -- The view of a member, with the address and the name where the account is found.
  unfoldable pub member_view : Store → OrganizationMembership → AdminOrgMemberView
  member_view s m = elim (get_by_id s m.user_id) [
    | err _ ↦ record {
      user_id = m.user_id;
      email = "";
      name = "";
      role = m.role;
      joined_at = p.format_time m.joined_at;
    }
    | ok u ↦ record {
      user_id = m.user_id;
      email = u.email;
      name = u.name;
      role = m.role;
      joined_at = p.format_time m.joined_at;
    }
  ]

  -- The account that an input names: by its id or else by its address. The two texts are the
  -- answers where none is named, and where it is not found.
  unfoldable pub named_user : String → String → String → String → H String
  unfolding missing_or_store
  named_user id email nobody missing =
      if trim_space id == ""
      then if trim_space (p.to_lower email) == ""
        then answer (http_error 400 nobody)
        else or_refusal (ask λ s. get_by_email p.to_lower s (trim_space (p.to_lower email)))
            (missing_or_store missing)
          >>= (λ (u : User). pure u.id)
      else or_refusal (ask λ s. get_by_id s (trim_space id)) (missing_or_store missing)
        >>= (λ (u : User). pure (trim_space id))

  -- `if current.Role == owner && … { if owners <= 1 { … } }`; `keeps` is whether the member stays
  -- an owner.
  unfoldable pub guard_last_owner : String → OrganizationMembership → Bool → String → H (Unit {0})
  unfolding count_org_owners
  guard_last_owner org_id current keeps text =
      if current.role == org_role_owner && not keeps
      then or_answer (ask λ s. count_org_owners s org_id) (http_error 500 "store")
        >>= (λ owners. refuse (leb owners 1) (http_error 403 text))
      else pure tt

  module _ (cfg : Config) where
    unfoldable pub handle_admin_list_organizations : Request → Handler
    unfolding require_admin
    handle_admin_list_organizations r = answers (do
      require_admin p cfg r
      list ← or_answer (ask λ s. list_organizations s) (http_error 500 "store")
      pure (json 200 (admin_org_list (map (view_org p) list))))

    unfoldable pub admin_create_organization : Request → Option OrgInput → H Response
    unfolding require_admin named_user
    admin_create_organization r body = do
      require_admin p cfg r
      input ← decoded body
      let name = trim_space input.name
      refuse (name == "" || ltb 120 (len name)) (http_error 400 "name is required (max 120)")
      owner_id ←
          named_user input.owner_user_id input.owner_email
            "owner_user_id or owner_email is required" "owner not found"
      w ← get λ w. w
      id ← fresh_id p
      let org : Organization = record { id = id; name = name; created_at = w.now }
      or_answer (call λ s. create_organization s org) (http_error 500 "store")
      or_answer
          (call λ s.
            add_organization_member s (record {
              org_id = id;
              user_id = owner_id;
              role = org_role_owner;
              joined_at = w.now;
            }))
          (http_error 500 "store")
      pure (json 201 (admin_org (view_org p org)))

    unfoldable pub handle_admin_create_organization : Request → Option OrgInput → Handler
    handle_admin_create_organization r body = answers (admin_create_organization r body)

    unfoldable pub handle_admin_get_organization : Request → Handler
    unfolding require_admin missing_or_store
    handle_admin_get_organization r = answers (do
      require_admin p cfg r
      org ←
          or_refusal (ask λ s. get_organization s (r.path_value "id"))
            (missing_or_store "not found")
      pure (json 200 (admin_org (view_org p org))))

    unfoldable pub handle_admin_list_organization_members : Request → Handler
    unfolding require_admin missing_or_store
    handle_admin_list_organization_members r = answers (do
      require_admin p cfg r
      org ←
          or_refusal (ask λ s. get_organization s (r.path_value "id"))
            (missing_or_store "not found")
      ms ←
          or_answer (ask λ s. list_organization_members s (r.path_value "id"))
            (http_error 500 "store")
      w ← get λ w. w
      pure (json 200 (admin_members (map (member_view w.store) ms))))

    unfoldable pub admin_add_member : Request → Option MemberInput → H Response
    unfolding require_admin missing_or_store conflict_or_store named_user
    admin_add_member r body = do
      require_admin p cfg r
      org ←
          or_refusal (ask λ s. get_organization s (r.path_value "id"))
            (missing_or_store "not found")
      input ← decoded body
      let role = default_role input.role
      refuse (not (is_role role)) (http_error 400 "role must be owner or member")
      user_id ← named_user input.user_id input.email "user_id or email is required" "user not found"
      w ← get λ w. w
      let m : OrganizationMembership = record {
        org_id = r.path_value "id";
        user_id = user_id;
        role = role;
        joined_at = w.now;
      }
      or_refusal (call λ s. add_organization_member s m) (conflict_or_store "already a member")
      pure (json 201 (admin_member (member_view w.store m)))

    unfoldable pub handle_admin_add_member : Request → Option MemberInput → Handler
    handle_admin_add_member r body = answers (admin_add_member r body)

    -- The body is the field `role`.
    unfoldable pub admin_update_member : Request → Option String → H Response
    unfolding require_admin missing_or_store guard_last_owner
    admin_update_member r body = do
      require_admin p cfg r
      raw ← decoded body
      let role = trim_space raw
      refuse (not (is_role role)) (http_error 400 "role must be owner or member")
      current ←
          or_refusal
            (ask λ s. get_organization_membership s (r.path_value "id") (r.path_value "userId"))
            (missing_or_store "not found")
      guard_last_owner (r.path_value "id") current (role == org_role_owner)
          "cannot demote the last owner"
      or_answer
          (call
            λ s. update_organization_member_role s (r.path_value "id") (r.path_value "userId") role)
          (http_error 500 "store")
      w ← get λ w. w
      pure (
          json 200 (
            admin_member (
              member_view w.store
                (record current { user_id = r.path_value "userId"; role = role }))))

    unfoldable pub handle_admin_update_member : Request → Option String → Handler
    handle_admin_update_member r body = answers (admin_update_member r body)

    unfoldable pub admin_remove_member : Request → H Response
    unfolding require_admin missing_or_store guard_last_owner
    admin_remove_member r = do
      require_admin p cfg r
      current ←
          or_refusal
            (ask λ s. get_organization_membership s (r.path_value "id") (r.path_value "userId"))
            (missing_or_store "not found")
      guard_last_owner (r.path_value "id") current false "cannot remove the last owner"
      or_answer (call λ s. remove_organization_member s (r.path_value "id") (r.path_value "userId"))
          (http_error 500 "store")
      pure no_content

    unfoldable pub handle_admin_remove_member : Request → Handler
    handle_admin_remove_member r = answers (admin_remove_member r)
