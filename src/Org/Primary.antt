-- ===== src/Org/Primary.antt =====
-- The primary organization that tokens and userinfo carry.
use pf_identity.Common.{
  String, ◌≡◌, ◌≢◌, refl, subst, List, [], ◌∷◌, none, some, inl, inr, ◌⊎◌, ◌==◌, eq_iff, arith, All,
  Option-cases, Bool-cases,
}
use pf_identity.Domain.{ok, Organization, OrganizationMembership, OrgMembershipView, Result-cases}
use pf_identity.Org.{
  primary_org, choose_primary, find_view, active_org_id, membership_views, views_of,
}
use pf_identity.Store.{Store}
use pf_identity.Store.Orgs.{list_organizations_for_user, get_organization_membership}

-- The view stands in the list.
abbrev pub Holds : OrgMembershipView → List OrgMembershipView → Type 0
Holds v [] = ⊥
Holds v (x ∷ xs) = (x ≡ v) ⊎ Holds v xs

-- Each view is a membership of the user, with its role at this time.
abbrev pub IsMembership : Store → String → OrgMembershipView → Type 0
IsMembership s user_id v =
    (m : OrganizationMembership) × (get_organization_membership s v.org_id user_id ≡ ok m)
    × (m.role ≡ v.role)

views_of-IsMembership :
    (s : Store) (user_id : String) (orgs : List Organization)
    → All (IsMembership s user_id) (views_of s user_id orgs)
unfolding views_of
views_of-IsMembership s user_id [] = tt
views_of-IsMembership s user_id (org ∷ rest) =
    let more = views_of-IsMembership s user_id rest in
    elim (Result-cases (get_organization_membership s org.id user_id)) [
      | inr (x, missing) ↦ rw (missing, views_of) more
      | inl (m, member) ↦ rw (member, views_of) ((m, member, refl), more)
    ]

find_view_sound :
    (org_id : String) (vs : List OrgMembershipView) (v : OrgMembershipView)
    → find_view org_id vs ≡ some v
    → Holds v vs × (v.org_id ≡ org_id)
unfolding find_view
find_view_sound org_id [] v e = absurd (cc)
find_view_sound org_id (x ∷ xs) v e = elim (Bool-cases (x.org_id == org_id)) [
  | inl hit ↦ (inl (ground arith), ground (arith, eq_iff x.org_id org_id))
  | inr miss ↦ let (there, named) = find_view_sound org_id xs v (ground arith) in (inr there, named)
]

find_view_complete :
    (org_id : String) (vs : List OrgMembershipView) (v : OrgMembershipView)
    → Holds v vs
    → v.org_id ≡ org_id
    → find_view org_id vs ≢ none
unfolding find_view
find_view_complete org_id [] v h n e = absurd h
find_view_complete org_id (x ∷ xs) v (inl same) n e = ground (arith, eq_iff x.org_id org_id)
find_view_complete org_id (x ∷ xs) v (inr there) n e =
    find_view_complete org_id xs v there n (ground arith)

All-Holds :
    (P : OrgMembershipView → Type 0) (v : OrgMembershipView) (vs : List OrgMembershipView)
    → All P vs
    → Holds v vs
    → P v
All-Holds P v [] a h = absurd h
All-Holds P v (x ∷ xs) a (inl e) = subst P e a.0
All-Holds P v (x ∷ xs) a (inr h) = All-Holds P v xs a.1 h

choose_primary_sound :
    (active : String) (views : List OrgMembershipView) (v : OrgMembershipView)
    → choose_primary active views ≡ ok v
    → Holds v views
      × (active ≢ ""
          → (x : OrgMembershipView) → Holds x views
          → x.org_id ≡ active
          → v.org_id ≡ active)
unfolding choose_primary
choose_primary_sound active [] v e = absurd (cc)
choose_primary_sound active (x ∷ xs) v e = elim (Bool-cases (active == "")) [
  | inl blank ↦ (inl (ground arith), λ n y h k. absurd (n ((eq_iff _ _).0 blank)))
  | inr given ↦ elim (Option-cases (find_view active (x ∷ xs))) [
    | inl none_there ↦ (
      inl (ground arith),
      λ n y h k. absurd (find_view_complete active (x ∷ xs) y h k none_there),
    )
    | inr (found, there) ↦
        let same : found ≡ v = ground arith in
        let (h, named) = find_view_sound active (x ∷ xs) found there in
        (subst (λ y. Holds y (x ∷ xs)) same h, λ n y h' k. ground (arith, same, named))
  ]
]

-- The primary organization is always one of which the user is a member at that time, with the
-- role of that membership, and is among the listed ones.
pub primary_org_sound :
    (s : Store) (user_id sid : String) (v : OrgMembershipView) (views : List OrgMembershipView)
    → primary_org s user_id sid ≡ ok (v, views)
    → Holds v views × IsMembership s user_id v × All (IsMembership s user_id) views
unfolding primary_org membership_views
primary_org_sound s user_id sid v views e =
    elim (Result-cases (list_organizations_for_user s user_id)) [
      | inr (x, failed) ↦ absurd (ground arith)
      | inl (orgs, listed) ↦
          elim (Result-cases (choose_primary (active_org_id s sid) (views_of s user_id orgs))) [
            | inr (x, failed) ↦ absurd (ground arith)
            | inl (u, chosen) ↦
                let all : views_of s user_id orgs ≡ views = ground arith in
                let one : u ≡ v = ground arith in
                let members : All (IsMembership s user_id) views =
                  subst (All (IsMembership s user_id)) all (views_of-IsMembership s user_id orgs) in
                let (h, _) = choose_primary_sound (active_org_id s sid) views v (ground arith) in
                (h, All-Holds (IsMembership s user_id) v views members h, members)
          ]
    ]

-- Where the session's active organization is among the listed ones, it is the primary one.
pub primary_org_active :
    (s : Store) (user_id sid : String) (v x : OrgMembershipView) (views : List OrgMembershipView)
    → primary_org s user_id sid ≡ ok (v, views)
    → active_org_id s sid ≢ ""
    → Holds x views
    → x.org_id ≡ active_org_id s sid
    → v.org_id ≡ active_org_id s sid
unfolding primary_org membership_views
primary_org_active s user_id sid v x views e given listed named =
    elim (Result-cases (list_organizations_for_user s user_id)) [
      | inr (y, failed) ↦ absurd (ground arith)
      | inl (orgs, found) ↦
          elim (Result-cases (choose_primary (active_org_id s sid) (views_of s user_id orgs))) [
            | inr (y, failed) ↦ absurd (ground arith)
            | inl (u, chosen) ↦
                (choose_primary_sound (active_org_id s sid) views v (ground arith)).1 given x listed
                  named
          ]
    ]
