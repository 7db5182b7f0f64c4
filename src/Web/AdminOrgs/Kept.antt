-- ===== src/Web/AdminOrgs/Kept.antt =====
-- Stores whose organizations have owners, and the writes of members of
-- apps/server/internal/store/memory/orgs.go on them.
use pf_identity.Common.{
  ◌+◌, ◌≤◌, String, ◌≡◌, false, none, some, inl, inr, arith, ◌==◌, eq_iff, Bool-cases, Option-cases,
  Dict, find, store_at, remove, find-store_at,
}
use pf_identity.Domain.{Organization, OrganizationMembership, OrgRole, org_role_owner}
use pf_identity.Store.{Store, new_store}
use pf_identity.Store.Orgs.{
  create_organization, add_organization_member, update_organization_member_role,
  remove_organization_member, members_of,
}
use pf_identity.Web.AdminOrgs.Owners.{
  IsDistinct, owner, owners, store_at-IsDistinct, remove-IsDistinct, owners-change, owners-add,
  owners-remove,
}

-- The members of an organization have distinct keys, and one of them at least is an owner.
abbrev pub IsLed : Dict OrganizationMembership → Type 0
IsLed ms = IsDistinct ms × (1 ≤ owners ms)

-- Each organization has members, and whatever has members has an owner among them.
pub record IsOwned (s : Store) : Type 0 where
  pub led :
      (o : String) (ms : Dict OrganizationMembership) → find s.org_members o ≡ some ms → IsLed ms
  pub listed :
      (o : String) (org : Organization)
      → find s.orgs o ≡ some org
      → (ms : Dict OrganizationMembership) × (find s.org_members o ≡ some ms)

pub new_store-IsOwned : IsOwned new_store
unfolding find
new_store-IsOwned = record {
  led = λ o ms h. absurd (ground arith);
  listed = λ o org h. absurd (ground arith);
}

-- The stores differ in nothing that counts.
pub IsOwned-frame :
    (s t : Store) → t.orgs ≡ s.orgs → t.org_members ≡ s.org_members → IsOwned s → IsOwned t
IsOwned-frame s t os ms v = record {
  led = λ o m h. v.led o m (rw ms at h);
  listed = λ o org h. rw ms (v.listed o org (rw os at h));
}

-- The members of one organization are written, which may be new, and what is written has an owner.
pub write_members-IsOwned :
    (s t : Store) (o : String) (ms : Dict OrganizationMembership)
    → ((j : String) → (o == j) ≡ false → find t.orgs j ≡ find s.orgs j)
    → t.org_members ≡ store_at s.org_members o ms
    → IsLed ms
    → IsOwned s
    → IsOwned t
write_members-IsOwned s t o ms os eq new v = record {
  led = λ j ns h. elim (Bool-cases (o == j)) [
    | inl same ↦
        let one : ns ≡ ms = ground (arith, eq, find-store_at s.org_members o j ms) in rw one new
    | inr apart ↦ v.led j ns (ground (arith, eq, find-store_at s.org_members o j ms))
  ];
  listed = λ j org h. elim (Bool-cases (o == j)) [
    | inl same ↦ (ms, ground (arith, eq, find-store_at s.org_members o j ms))
    | inr apart ↦
        let (ns, here) = v.listed j org (ground (arith, os j apart)) in
        (ns, ground (arith, eq, here, find-store_at s.org_members o j ms))
  ];
}

members_of-IsDistinct : (s : Store) (o : String) → IsOwned s → IsDistinct (members_of s o)
members_of-IsDistinct s o v = elim (Option-cases (find s.org_members o)) [
  | inl missing ↦ rw missing tt
  | inr (ms, found) ↦ rw found (v.led o ms found).0
]

-- The members with one more.
joined-IsLed :
    (s : Store) (m : OrganizationMembership)
    → find (members_of s m.org_id) m.user_id ≡ none
    → 1 ≤ owners (members_of s m.org_id) + owner m
    → IsOwned s
    → IsLed (store_at (members_of s m.org_id) m.user_id m)
joined-IsLed s m free enough v =
    let ms = members_of s m.org_id in
    (
      store_at-IsDistinct ms m.user_id m (members_of-IsDistinct s m.org_id v),
      omega (arith, owners-add ms m.user_id m free, enough),
    )

-- The members that a member stands among.
kept-IsLed :
    (s : Store) (o u : String) (m : OrganizationMembership)
    → find (members_of s o) u ≡ some m
    → IsOwned s
    → IsLed (members_of s o)
unfolding find
kept-IsLed s o u m here v = elim (Option-cases (find s.org_members o)) [
  | inl missing ↦ absurd (ground arith)
  | inr (ms, found) ↦ rw found (v.led o ms found)
]

-- A new organization with its first member, who is an owner.
pub found-IsOwned :
    (s : Store) (org : Organization) (m : OrganizationMembership)
    → m.org_id ≡ org.id
    → m.role ≡ org_role_owner
    → IsOwned s
    → IsOwned (add_organization_member (create_organization s org).0 m).0
unfolding create_organization add_organization_member
found-IsOwned s org m own role v = elim (Option-cases (find (members_of s m.org_id) m.user_id)) [
  | inl free ↦
      write_members-IsOwned s _ m.org_id (store_at (members_of s m.org_id) m.user_id m)
        (λ j a. ground (arith, find-store_at s.orgs org.id j org)) (ground arith)
        (joined-IsLed s m free (ground (arith, eq_iff m.role org_role_owner)) v) v
  | inr (n, taken) ↦
      write_members-IsOwned s _ m.org_id (members_of s m.org_id)
        (λ j a. ground (arith, find-store_at s.orgs org.id j org)) (ground arith)
        (kept-IsLed s m.org_id m.user_id n taken v) v
]

-- A member is added to an organization that is there.
pub add_member-IsOwned :
    (s : Store) (org : Organization) (m : OrganizationMembership)
    → find s.orgs m.org_id ≡ some org
    → IsOwned s
    → IsOwned (add_organization_member s m).0
unfolding add_organization_member
add_member-IsOwned s org m here v = elim (Option-cases (find (members_of s m.org_id) m.user_id)) [
  | inl free ↦
      let (ms, found) = v.listed m.org_id org here in
      write_members-IsOwned s _ m.org_id (store_at (members_of s m.org_id) m.user_id m)
        (λ j a. ground arith) (ground arith)
        (joined-IsLed s m free (ground (arith, (v.led m.org_id ms found).1)) v) v
  | inr (n, taken) ↦
      write_members-IsOwned s _ m.org_id (members_of s m.org_id) (λ j a. ground arith)
        (ground arith) (kept-IsLed s m.org_id m.user_id n taken v) v
]

module _ (s : Store) (o u : String) (ms : Dict OrganizationMembership) (m : OrganizationMembership)
    (found : find s.org_members o ≡ some ms) (here : find ms u ≡ some m) (v : IsOwned s) where
  -- The role of a member changes, who stays an owner, was none, or is one of several.
  pub update_role-IsOwned :
      (role : OrgRole)
      → 1 + owner m ≤ owners ms + owner (record m { role = role })
      → IsOwned (update_organization_member_role s o u role).0
  unfolding update_organization_member_role
  update_role-IsOwned role enough =
      let new = record m { role = role } in
      write_members-IsOwned s _ o (store_at ms u new) (λ j a. ground arith) (ground arith)
        (
          store_at-IsDistinct ms u new (v.led o ms found).0,
          omega (arith, owners-change ms u m new here, enough),
        )
        v

  -- A member goes who is no owner, or is one of several.
  pub remove_member-IsOwned : 1 + owner m ≤ owners ms → IsOwned (remove_organization_member s o u).0
  unfolding remove_organization_member
  remove_member-IsOwned enough =
      let d = (v.led o ms found).0 in
      write_members-IsOwned s _ o (remove ms u) (λ j a. ground arith) (ground arith)
        (remove-IsDistinct ms u d, omega (arith, owners-remove ms u m d here, enough)) v
