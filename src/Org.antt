-- ===== src/Org.antt =====
-- Organizations, the tenant boundaries: apps/server/internal/org.
pub mod Membership
pub mod Primary
use Prim.Native.String.{len}
use pf_identity.Common.{
  String, Bool, ◌||◌, List, [], ◌∷◌, ◌==◌, if◌then◌else◌, ltb, Option, none, some,
}
use pf_identity.Common.Text.{trim_space}
use pf_identity.Domain.{
  Result, ok, err, invalid, forbidden, not_found, Organization, OrganizationMembership,
  OrgMemberDetail, OrgMembershipView, org_role_owner,
}
use pf_identity.Domain
use pf_identity.Platform.{Platform}
use pf_identity.Store.{Store, Written}
use pf_identity.Store.Orgs.{
  create_organization, add_organization_member, list_organizations_for_user,
  list_organization_members, get_organization_membership,
}
use pf_identity.Store.Sessions.{
  set_session_active_org, set_session_active_org_by_sid, get_session_by_sid,
}
use pf_identity.Store.Users.{get_by_id}
use pf_identity.World.{World, M, pure, fail, ask, call, clock, new_id, ◌>>=◌, ◌>>◌}

module _ (p : Platform) where
  unfoldable pub create : String → String → M Organization
  create actor_id raw_name = do
    let name = trim_space raw_name
    if name == "" || ltb 120 (len name) then fail invalid else pure tt
    now ← clock
    id ← new_id p
    let org : Organization = record { id = id; name = name; created_at = now }
    call λ s. create_organization s org
    call λ s.
        add_organization_member s
          (record { org_id = id; user_id = actor_id; role = org_role_owner; joined_at = now })
    pure org

unfoldable pub list_for_user : Store → String → Result (List Organization)
list_for_user s user_id = list_organizations_for_user s user_id

-- A member's entry, with the e-mail address and the name where the account is found.
unfoldable pub member_detail : Store → OrganizationMembership → OrgMemberDetail
member_detail s m = elim (get_by_id s m.user_id) [
  | err _ ↦ record {
    user_id = m.user_id;
    role = m.role;
    email = "";
    name = "";
    joined_at = m.joined_at;
  }
  | ok u ↦ record {
    user_id = m.user_id;
    role = m.role;
    email = u.email;
    name = u.name;
    joined_at = m.joined_at;
  }
]

-- The loop of `ListMembers`.
unfoldable pub member_details : Store → List OrganizationMembership → List OrgMemberDetail
unfolding member_detail
member_details s [] = []
member_details s (m ∷ ms) = member_detail s m ∷ member_details s ms

unfoldable pub list_members : Store → String → String → Result (List OrgMemberDetail)
list_members s actor_id org_id = elim (get_organization_membership s org_id actor_id) [
  | err _ ↦ err forbidden
  | ok _ ↦ elim (list_organization_members s org_id) [
    | err e ↦ err e
    | ok members ↦ ok (member_details s members)
  ]
]

unfoldable pub set_active_org : Store → String → String → String → Written
set_active_org s user_id session_token_hash org_id =
    elim (get_organization_membership s org_id user_id) [
      | err _ ↦ (s, err forbidden)
      | ok _ ↦ set_session_active_org s session_token_hash org_id
    ]

unfoldable pub set_active_org_by_sid : Store → String → String → String → Written
set_active_org_by_sid s user_id sid org_id = elim (get_organization_membership s org_id user_id) [
  | err _ ↦ (s, err forbidden)
  | ok _ ↦ elim (get_session_by_sid s sid) [
    | err _ ↦ (s, err not_found)
    | ok sess ↦
        if sess.user_id == user_id
        then set_session_active_org_by_sid s sid org_id
        else (s, err forbidden)
  ]
]

-- The loop of `MembershipViews`.
unfoldable pub views_of : Store → String → List Organization → List OrgMembershipView
views_of s user_id [] = []
views_of s user_id (org ∷ rest) =
    let more = views_of s user_id rest in
    elim (get_organization_membership s org.id user_id) [
      | err _ ↦ more
      | ok m ↦ record { org_id = org.id; org_name = org.name; role = m.role } ∷ more
    ]

unfoldable pub membership_views : Store → String → Result (List OrgMembershipView)
membership_views s user_id = elim (list_organizations_for_user s user_id) [
  | err e ↦ err e
  | ok orgs ↦ ok (views_of s user_id orgs)
]

-- The active organization of the session, "" where there is none.
unfoldable pub active_org_id : Store → String → String
active_org_id s session_sid =
    if session_sid == ""
    then ""
    else elim (get_session_by_sid s session_sid) [ err _ ↦ "" | ok sess ↦ sess.active_org_id ]

-- The loop that looks for the active organization.
unfoldable pub find_view : String → List OrgMembershipView → Option OrgMembershipView
find_view org_id [] = none
find_view org_id (v ∷ vs) = if v.org_id == org_id then some v else find_view org_id vs

-- The choice among the views; the source also returns the views with an error.
unfoldable pub choose_primary : String → List OrgMembershipView → Result OrgMembershipView
choose_primary active [] = err not_found
choose_primary active (v ∷ vs) =
    if active == ""
    then ok v
    else elim (find_view active (v ∷ vs)) [ none ↦ ok v | some found ↦ ok found ]

unfoldable pub primary_org :
    Store → String → String → Result (OrgMembershipView × List OrgMembershipView)
primary_org s user_id session_sid = elim (membership_views s user_id) [
  | err e ↦ err e
  | ok views ↦ elim (choose_primary (active_org_id s session_sid) views) [
    | err e ↦ err e
    | ok primary ↦ ok (primary, views)
  ]
]
