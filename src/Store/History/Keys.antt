-- ===== src/Store/History/Keys.antt =====
-- Rows over a history: a client stands under its id, and a membership under its organization and
-- its user.
use pf_identity.Common.{
  String, ◌≡◌, List, [], ◌∷◌, some, inl, inr, arith, find, store_at, remove, find-store_at,
  find-remove, Option-cases, eq_iff, ◌==◌, Bool-cases, Dict,
}
use pf_identity.Domain.{Client, OrganizationMembership}
use pf_identity.Store.{Store, new_store}
use pf_identity.Store.Users.{create, set_user_disabled}
use pf_identity.Store.Codes.{put_code, take_code}
use pf_identity.Store.History.{
  Call, creates_client, updates_client, sets_secret, adds_member, updates_role, removes_member,
  takes_code, step, run,
}
use pf_identity.Store.Sessions.{
  put_session, delete_session, forget_clients, add_session_client, set_session_active_org,
  set_session_active_org_by_sid,
}
use pf_identity.Store.Clients.{create_client, update_client, set_client_secret, apply_patch}
use pf_identity.Store.Tokens.{put_refresh, take_refresh, revoke_family, put_access}
use pf_identity.Store.Consents.{put_consent}
use pf_identity.Store.Audits.{append_audit}
use pf_identity.Store.Orgs.{
  create_organization, add_organization_member, update_organization_member_role,
  remove_organization_member, members_of,
}

-- The row of a client, if there is one, has the key as its id.
abbrev pub HasOwnId : Store → String → Type 0
HasOwnId s id = (c : Client) → find s.clients id ≡ some c → c.id ≡ id

-- The row of a member names the organization and the user of its key.
abbrev pub HasOwnMember : Store → String → String → Type 0
HasOwnMember s org_id user_id =
    (m : OrganizationMembership)
    → find (members_of s org_id) user_id ≡ some m
    → (m.org_id ≡ org_id) × (m.user_id ≡ user_id)

pub record IsKeyed (s : Store) : Type 0 where
  pub client : (id : String) → HasOwnId s id
  pub member : (org_id user_id : String) → HasOwnMember s org_id user_id

IsKeyed-frame :
    (s t : Store) → t.clients ≡ s.clients → t.org_members ≡ s.org_members → IsKeyed s → IsKeyed t
IsKeyed-frame s t cs ms v = record {
  client = λ id c h. v.client id c (rw cs at h);
  member = λ o u m h. v.member o u m (rw ms at h);
}

-- Writing a client under its own id.
write_client-IsKeyed :
    (s t : Store) (c : Client)
    → t.clients ≡ store_at s.clients c.id c
    → t.org_members ≡ s.org_members
    → IsKeyed s
    → IsKeyed t
write_client-IsKeyed s t c cs ms v = record {
  client =
      λ j d h. ground (arith, cs, find-store_at s.clients c.id j c, eq_iff c.id j, v.client j d);
  member = λ o u m h. v.member o u m (rw ms at h);
}

-- Writing the members of an organization, each under its own key.
write_members-IsKeyed :
    (s t : Store) (org_id : String) (ms : Dict OrganizationMembership)
    → ((u : String) (m : OrganizationMembership)
        → find ms u ≡ some m
        → (m.org_id ≡ org_id) × (m.user_id ≡ u))
    → t.clients ≡ s.clients
    → t.org_members ≡ store_at s.org_members org_id ms
    → IsKeyed s
    → IsKeyed t
write_members-IsKeyed s t org_id ms own cs eq v = record {
  client = λ id c h. v.client id c (rw cs at h);
  member = λ o u m h. elim (Bool-cases (org_id == o)) [
    | inl same ↦
        let held : find ms u ≡ some m =
          ground (arith, eq, find-store_at s.org_members org_id o ms) in
        ground (arith, own u m held, eq_iff org_id o)
    | inr apart ↦ v.member o u m (ground (arith, eq, find-store_at s.org_members org_id o ms))
  ];
}

HasOwnMember-found :
    (s : Store) (o : String) (ms : Dict OrganizationMembership)
    → IsKeyed s
    → find s.org_members o ≡ some ms
    → (u : String) (m : OrganizationMembership) → find ms u ≡ some m
    → (m.org_id ≡ o) × (m.user_id ≡ u)
HasOwnMember-found s o ms v found u m h = v.member o u m (ground arith)

-- The call writes neither clients nor members.
abbrev LeavesKeys : Call → Type 0
LeavesKeys (creates_client c) = ⊥
LeavesKeys (updates_client id p) = ⊥
LeavesKeys (sets_secret id h) = ⊥
LeavesKeys (adds_member m) = ⊥
LeavesKeys (updates_role o u r) = ⊥
LeavesKeys (removes_member o u) = ⊥
LeavesKeys _ = Unit

module _ (lower : String → String) where
  step-kept :
      (s : Store) (c : Call)
      → LeavesKeys c
      → ((step lower s c).clients ≡ s.clients) × ((step lower s c).org_members ≡ s.org_members)
  unfolding step create set_user_disabled put_session delete_session forget_clients
      add_session_client set_session_active_org set_session_active_org_by_sid put_refresh
      take_refresh revoke_family put_access put_consent append_audit create_organization put_code
      take_code
  step-kept s (creates_client c) k = absurd k
  step-kept s (updates_client id p) k = absurd k
  step-kept s (sets_secret id h) k = absurd k
  step-kept s (adds_member m) k = absurd k
  step-kept s (updates_role o u r) k = absurd k
  step-kept s (removes_member o u) k = absurd k
  step-kept s (takes_code h) k = ground arith
  step-kept s c k = ground arith

  step-IsKeyed : (s : Store) (c : Call) → IsKeyed s → IsKeyed (step lower s c)
  unfolding step create_client update_client set_client_secret apply_patch add_organization_member
      update_organization_member_role remove_organization_member
  step-IsKeyed s (creates_client c) v = elim (Option-cases (find s.clients c.id)) [
    | inr (d, taken) ↦ IsKeyed-frame s _ (ground arith) (ground arith) v
    | inl free ↦ write_client-IsKeyed s _ c (ground arith) (ground arith) v
  ]
  step-IsKeyed s (updates_client id p) v = elim (Option-cases (find s.clients id)) [
    | inl missing ↦ IsKeyed-frame s _ (ground arith) (ground arith) v
    | inr (c, here) ↦
        write_client-IsKeyed s _ (apply_patch c p) (ground (arith, v.client id c here))
          (ground arith) v
  ]
  step-IsKeyed s (sets_secret id h) v = elim (Option-cases (find s.clients id)) [
    | inl missing ↦ IsKeyed-frame s _ (ground arith) (ground arith) v
    | inr (c, here) ↦
        write_client-IsKeyed s _ (record c { secret_hash = h }) (ground (arith, v.client id c here))
          (ground arith) v
  ]
  step-IsKeyed s (adds_member m) v = elim (Option-cases (find (members_of s m.org_id) m.user_id)) [
    | inr (d, taken) ↦
        write_members-IsKeyed s _ m.org_id (members_of s m.org_id) (v.member m.org_id)
          (ground arith) (ground arith) v
    | inl free ↦
        write_members-IsKeyed s _ m.org_id (store_at (members_of s m.org_id) m.user_id m)
          (λ u d h. ground (
            arith,
            find-store_at (members_of s m.org_id) m.user_id u m,
            eq_iff m.user_id u,
            v.member m.org_id u d,
          ))
          (ground arith) (ground arith) v
  ]
  step-IsKeyed s (updates_role o u r) v = elim (Option-cases (find s.org_members o)) [
    | inl missing ↦ IsKeyed-frame s _ (ground arith) (ground arith) v
    | inr (ms, found) ↦ elim (Option-cases (find ms u)) [
      | inl absent ↦ IsKeyed-frame s _ (ground arith) (ground arith) v
      | inr (m, here) ↦
          let changed = record m { role = r } in
          write_members-IsKeyed s _ o (store_at ms u changed)
            (λ j d h. ground (
              arith,
              find-store_at ms u j changed,
              eq_iff u j,
              HasOwnMember-found s o ms v found u m here,
              HasOwnMember-found s o ms v found j d,
            ))
            (ground arith) (ground arith) v
    ]
  ]
  step-IsKeyed s (removes_member o u) v = elim (Option-cases (find s.org_members o)) [
    | inl missing ↦ IsKeyed-frame s _ (ground arith) (ground arith) v
    | inr (ms, found) ↦ elim (Option-cases (find ms u)) [
      | inl absent ↦ IsKeyed-frame s _ (ground arith) (ground arith) v
      | inr (m, here) ↦
          write_members-IsKeyed s _ o (remove ms u)
            (λ j d h. ground (arith, find-remove ms u j, HasOwnMember-found s o ms v found j d))
            (ground arith) (ground arith) v
    ]
  ]
  step-IsKeyed s c v = let (cs, ms) = step-kept s c tt in IsKeyed-frame s (step lower s c) cs ms v

  run_from-IsKeyed : (s : Store) (cs : List Call) → IsKeyed s → IsKeyed (run lower s cs)
  unfolding run
  run_from-IsKeyed s [] v = v
  run_from-IsKeyed s (c ∷ cs) v = run_from-IsKeyed (step lower s c) cs (step-IsKeyed s c v)

  -- After any history of an empty store every client stands under its own id, and every
  -- membership under its own organization and user.
  pub run-IsKeyed : (cs : List Call) → IsKeyed (run lower new_store cs)
  unfolding find
  run-IsKeyed cs = run_from-IsKeyed new_store cs (record {
    client = λ id c h. absurd (ground arith);
    member = λ o u m h. absurd (ground arith);
  })
