-- ===== src/Store/Orgs.antt =====
-- Organizations in the process-local store: apps/server/internal/store/memory/orgs.go, but for the
-- two writers of a session's active organization, which stand in Store/Sessions.
use pf_identity.Common.{
  String, Bool, List, [], ◌∷◌, none, some, ltb, Dict, find, store_at, remove, values, or_else,
}
use pf_identity.Common.Sorting.{sort}
use pf_identity.Domain.{
  Result, ok, err, conflict, not_found, or_not_found, Organization, OrganizationMembership, OrgRole,
}
use pf_identity.Store.{Store, Written}

unfoldable pub create_organization : Store → Organization → Written
create_organization s org = (record s { orgs = store_at s.orgs org.id org }, ok tt)

unfoldable pub get_organization : Store → String → Result Organization
get_organization s id = or_not_found (find s.orgs id)

-- `CreatedAt.Before`
unfoldable pub older_org : Organization → Organization → Bool
older_org a b = ltb a.created_at b.created_at

unfoldable pub list_organizations : Store → Result (List Organization)
unfolding older_org
list_organizations s = ok (sort older_org (values s.orgs))

-- The loop over the memberships of all organizations.
unfoldable pub orgs_of :
    Dict Organization → String → Dict (Dict OrganizationMembership) → List Organization
orgs_of orgs user_id [] = []
orgs_of orgs user_id ((org_id, members) ∷ rest) =
    let more = orgs_of orgs user_id rest in
    elim (find members user_id) [
      | none ↦ more
      | some _ ↦ elim (find orgs org_id) [ none ↦ more | some org ↦ org ∷ more ]
    ]

unfoldable pub list_organizations_for_user : Store → String → Result (List Organization)
unfolding older_org
list_organizations_for_user s user_id = ok (sort older_org (orgs_of s.orgs user_id s.org_members))

-- The memberships of an organization; a nil map reads as an empty one.
abbrev pub members_of : Store → String → Dict OrganizationMembership
members_of s org_id = or_else (find s.org_members org_id) []

unfoldable pub add_organization_member : Store → OrganizationMembership → Written
add_organization_member s m =
    let members = members_of s m.org_id in
    elim (find members m.user_id) [
      | some _ ↦ (record s { org_members = store_at s.org_members m.org_id members }, err conflict)
      | none ↦ (
        record s { org_members = store_at s.org_members m.org_id (store_at members m.user_id m) },
        ok tt,
      )
    ]

-- `JoinedAt.Before`
unfoldable pub joined_before : OrganizationMembership → OrganizationMembership → Bool
joined_before a b = ltb a.joined_at b.joined_at

unfoldable pub list_organization_members : Store → String → Result (List OrganizationMembership)
list_organization_members s org_id = elim (find s.org_members org_id) [
  | none ↦ ok []
  | some members ↦ ok (sort joined_before (values members))
]

unfoldable pub get_organization_membership : Store → String → String → Result OrganizationMembership
get_organization_membership s org_id user_id = elim (find s.org_members org_id) [
  | none ↦ err not_found
  | some members ↦ or_not_found (find members user_id)
]

unfoldable pub update_organization_member_role : Store → String → String → OrgRole → Written
update_organization_member_role s org_id user_id role = elim (find s.org_members org_id) [
  | none ↦ (s, err not_found)
  | some members ↦ elim (find members user_id) [
    | none ↦ (s, err not_found)
    | some m ↦ (
      record s {
        org_members =
            store_at s.org_members org_id (store_at members user_id (record m { role = role }));
      },
      ok tt,
    )
  ]
]

unfoldable pub remove_organization_member : Store → String → String → Written
remove_organization_member s org_id user_id = elim (find s.org_members org_id) [
  | none ↦ (s, err not_found)
  | some members ↦ elim (find members user_id) [
    | none ↦ (s, err not_found)
    | some _ ↦
        (record s { org_members = store_at s.org_members org_id (remove members user_id) }, ok tt)
  ]
]
