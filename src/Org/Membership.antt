-- ===== src/Org/Membership.antt =====
-- Membership decides: who becomes an owner, and whose session can switch to an organization.
use pf_identity.Common.{
  String, ◌≡◌, [], ◌∷◌, Dict, some, inl, inr, ◌==◌, eq_iff, eq_refl, arith, if◌then◌else◌, find,
  find-store_at, Option-cases, Bool-cases, store_at,
}
use pf_identity.Domain.{
  ok, Organization, OrganizationMembership, Session, org_role_owner, Result-cases,
}
use pf_identity.Org.{create, set_active_org, set_active_org_by_sid}
use pf_identity.Platform.{Platform}
use pf_identity.Store.{Store}
use pf_identity.Store.Orgs.{
  create_organization, add_organization_member, get_organization_membership, get_organization,
  members_of,
}
use pf_identity.Store.Sessions.{
  set_session_active_org, set_session_active_org_by_sid, get_session_by_sid, find_sid,
}
use pf_identity.World.{World, new_id}

-- `create` makes the actor an owner of an organization that is found under its id, with the
-- membership and the organization dated at the time of the call.
pub create_owner :
    (p : Platform) (actor_id name : String) (w w' : World) (org : Organization)
    → create p actor_id name w ≡ (w', ok org)
    → (get_organization w'.store org.id ≡ ok org)
      × (org.created_at ≡ w.now)
      × (get_organization_membership w'.store org.id actor_id
          ≡ ok (record {
            org_id = org.id;
            user_id = actor_id;
            role = org_role_owner;
            joined_at = w.now;
          }))
unfolding create new_id create_organization add_organization_member get_organization
    get_organization_membership
create_owner p actor_id name w w' org e =
    let m : OrganizationMembership = record {
      org_id = org.id;
      user_id = actor_id;
      role = org_role_owner;
      joined_at = w.now;
    } in
    let members = members_of w.store org.id in
    ground (
      arith,
      find-store_at w.store.orgs org.id org.id org,
      eq_refl org.id,
      eq_refl actor_id,
      find-store_at w.store.org_members org.id org.id (store_at members actor_id m),
      find-store_at members actor_id actor_id m,
    )

-- Switching the organization of the cookie's session succeeds only for a member of the
-- organization with a stored session, and then changes that field of that session alone.
pub set_active_org_effect :
    (s t : Store) (user_id hash org_id k : String)
    → set_active_org s user_id hash org_id ≡ (t, ok tt)
    → ((m : OrganizationMembership) × (get_organization_membership s org_id user_id ≡ ok m))
      × ((sess : Session) × (find s.sessions hash ≡ some sess)
          × (find t.sessions k ≡ (
              if hash == k
              then some (record sess { active_org_id = org_id })
              else find s.sessions k)))
unfolding set_active_org set_session_active_org
set_active_org_effect s t user_id hash org_id k e =
    elim (Result-cases (get_organization_membership s org_id user_id)) [
      | inr (x, missing) ↦ absurd (ground arith)
      | inl (m, member) ↦ elim (Option-cases (find s.sessions hash)) [
        | inl gone ↦ absurd (ground arith)
        | inr (sess, found) ↦ (
          (m, member),
          (
            sess,
            found,
            ground
                (arith, find-store_at s.sessions hash k (record sess { active_org_id = org_id })),
          ),
        )
      ]
    ]

find_sid-sid :
    (m : Dict Session) (sid hash : String) (sess : Session)
    → find_sid m sid ≡ some (hash, sess)
    → sess.sid ≡ sid
unfolding find_sid
find_sid-sid [] sid hash sess e = absurd (cc)
find_sid-sid ((h, x) ∷ m) sid hash sess e =
    ground (arith, eq_iff x.sid sid, find_sid-sid m sid hash sess)

-- The same for the session with a given sid, which in addition has to be the caller's own.
pub set_active_org_by_sid_guard :
    (s t : Store) (user_id sid org_id : String)
    → set_active_org_by_sid s user_id sid org_id ≡ (t, ok tt)
    → ((m : OrganizationMembership) × (get_organization_membership s org_id user_id ≡ ok m))
      × ((hash : String) × (sess : Session) × (sess.sid ≡ sid)
          × (sess.user_id ≡ user_id)
          × (t ≡ record s {
            sessions = store_at s.sessions hash (record sess { active_org_id = org_id });
          }))
unfolding set_active_org_by_sid set_session_active_org_by_sid get_session_by_sid
set_active_org_by_sid_guard s t user_id sid org_id e =
    elim (Result-cases (get_organization_membership s org_id user_id)) [
      | inr (x, missing) ↦ absurd (ground arith)
      | inl (m, member) ↦ elim (Option-cases (find_sid s.sessions sid)) [
        | inl none_there ↦ absurd (ground arith)
        | inr ((hash, sess), found) ↦ elim (Bool-cases (sess.user_id == user_id)) [
          | inr other ↦ absurd (ground arith)
          | inl own ↦ (
            (m, member),
            (
              hash,
              sess,
              find_sid-sid s.sessions sid hash sess found,
              (eq_iff _ _).0 own,
              ground arith,
            ),
          )
        ]
      ]
    ]
