-- ===== src/Store/Users/Index.antt =====
-- The e-mail index of the store: every account is found by its lower-cased address, and by no
-- other.
use pf_identity.Common.{
  String, ◌≡◌, subst, Bool, none, some, inl, inr, arith, ◌==◌, eq_iff, eq_refl, find, store_at,
  find-store_at, Option-cases, Bool-cases,
}
use pf_identity.Domain.{ok, err, conflict, User}
use pf_identity.Store.{Store, new_store}
use pf_identity.Store.Users.{create, get_by_email, get_by_id, set_user_disabled}

module _ (to_lower : String → String) where
  -- An entry of the index leads to an account with that address, and an account stands under its
  -- own id, is entered in the index, and has a lower-cased address.
  pub record IsIndexed (s : Store) : Type 0 where
    pub entry :
        (e id : String)
        → find s.by_email e ≡ some id
        → (u : User) × (find s.users id ≡ some u) × (u.email ≡ e)
    pub account :
        (id : String) (u : User)
        → find s.users id ≡ some u
        → (u.id ≡ id) × (find s.by_email u.email ≡ some id) × (to_lower u.email ≡ u.email)

  pub new_store-IsIndexed : IsIndexed new_store
  unfolding find
  new_store-IsIndexed = record { entry = λ e id h. cc; account = λ id u h. cc }

  -- The account as `create` stores it.
  abbrev pub lowered : User → User
  lowered u = record u { email = to_lower u.email }

module _ (to_lower : String → String)
    (to_lower_idem : (e : String) → to_lower (to_lower e) ≡ to_lower e) where
  created-IsIndexed :
      (s : Store) (u : User)
      → find s.users u.id ≡ none
      → find s.by_email (to_lower u.email) ≡ none
      → IsIndexed to_lower s
      → IsIndexed to_lower (record s {
        users = store_at s.users u.id (lowered to_lower u);
        by_email = store_at s.by_email (to_lower u.email) u.id;
      })
  created-IsIndexed s u fresh free v = record {
    entry = λ e id h. elim (Bool-cases (to_lower u.email == e)) [
      | inl same ↦
          let hit : u.id ≡ id =
            ground (arith, find-store_at s.by_email (to_lower u.email) e u.id) in
          (
            lowered to_lower u,
            ground (arith, find-store_at s.users u.id id (lowered to_lower u), eq_iff u.id id),
            (eq_iff _ _).0 same,
          )
      | inr other ↦
          let (w, found, same) =
            v.entry e id (ground (arith, find-store_at s.by_email (to_lower u.email) e u.id)) in
          (
            w,
            ground (arith, find-store_at s.users u.id id (lowered to_lower u), eq_iff u.id id),
            same,
          )
    ];
    account = λ id w h. elim (Bool-cases (u.id == id)) [
      | inl same ↦
          let hit : lowered to_lower u ≡ w =
            ground (arith, find-store_at s.users u.id id (lowered to_lower u)) in
          subst
            (λ x.
              (x.id ≡ id)
              × (find (store_at s.by_email (to_lower u.email) u.id) x.email ≡ some id)
              × (to_lower x.email ≡ x.email))
            hit
            (
              (eq_iff _ _).0 same,
              ground (
                arith,
                find-store_at s.by_email (to_lower u.email) (to_lower u.email) u.id,
                eq_refl (to_lower u.email),
                eq_iff u.id id,
              ),
              to_lower_idem u.email,
            )
      | inr other ↦
          let (own, entered, low) =
            v.account id w (ground (arith, find-store_at s.users u.id id (lowered to_lower u))) in
          (
            own,
            ground (
              arith,
              find-store_at s.by_email (to_lower u.email) w.email u.id,
              eq_iff (to_lower u.email) w.email,
            ),
            low,
          )
    ];
  }

  -- `create` keeps the index right, for an id that no account has yet.
  pub create-IsIndexed :
      (s : Store) (u : User)
      → find s.users u.id ≡ none
      → IsIndexed to_lower s
      → IsIndexed to_lower (create to_lower s u).0
  unfolding create
  create-IsIndexed s u fresh v = elim (Option-cases (find s.by_email (to_lower u.email))) [
    | inl free ↦ rw (free, create) (created-IsIndexed s u fresh free v)
    | inr (id, taken) ↦ rw (taken, create) v
  ]

  -- Switching an account off or on keeps the index right.
  pub set_user_disabled-IsIndexed :
      (s : Store) (id : String) (b : Bool)
      → IsIndexed to_lower s
      → IsIndexed to_lower (set_user_disabled s id b).0
  unfolding set_user_disabled
  set_user_disabled-IsIndexed s id b v = elim (Option-cases (find s.users id)) [
    | inl missing ↦ rw (missing, set_user_disabled) v
    | inr (u, found) ↦
        rw (found, set_user_disabled)
          (record {
            entry = λ e j h.
                let (w, at_j, same) = v.entry e j h in
                elim (Bool-cases (id == j)) [
                  | inl hit ↦ (
                    record u { disabled = b },
                    ground (arith, find-store_at s.users id j (record u { disabled = b })),
                    ground (arith, eq_iff id j),
                  )
                  | inr other ↦ (
                    w,
                    ground (arith, find-store_at s.users id j (record u { disabled = b })),
                    same,
                  )
                ];
            account = λ j w h. elim (Bool-cases (id == j)) [
              | inl hit ↦
                  let same : record u { disabled = b } ≡ w =
                    ground (arith, find-store_at s.users id j (record u { disabled = b })) in
                  let (own, entered, low) = v.account id u found in
                  (
                    ground (arith, eq_iff id j),
                    ground (arith, eq_iff id j),
                    subst (λ x. to_lower x.email ≡ x.email) same low,
                  )
              | inr other ↦
                  v.account j w
                    (ground (arith, find-store_at s.users id j (record u { disabled = b })))
            ];
          })
  ]

  -- In an indexed store a successful lookup by e-mail gives the account under that very address,
  -- lower-cased, which is also the one found under its id.
  pub get_by_email_sound :
      (s : Store) (email : String) (u : User)
      → IsIndexed to_lower s
      → get_by_email to_lower s email ≡ ok u
      → (u.email ≡ to_lower email) × (get_by_id s u.id ≡ ok u)
  unfolding get_by_email get_by_id
  get_by_email_sound s email u v e = elim (Option-cases (find s.by_email (to_lower email))) [
    | inl free ↦ absurd (cc (rw (free, get_by_email) at e))
    | inr (id, entered) ↦
        let (w, found, same) = v.entry (to_lower email) id entered in
        let here : w ≡ u = ground arith in
        let own : w.id ≡ id = (v.account id w found).0 in
        (subst (λ x. x.email ≡ to_lower email) here same, ground arith)
  ]

  -- In an indexed store no two accounts have the same address.
  pub email_unique :
      (s : Store) (u w : User) (id k : String)
      → IsIndexed to_lower s
      → find s.users id ≡ some u
      → find s.users k ≡ some w
      → u.email ≡ w.email
      → (u ≡ w) × (id ≡ k)
  email_unique s u w id k v at_id at_k alike =
      let (own, entered, _) = v.account id u at_id in
      let (own', entered', _) = v.account k w at_k in (ground arith, ground arith)

  -- After a successful `create` the account is found by its address in any spelling that lowers
  -- to the same text, and by its id; a second `create` under such an address is a conflict.
  pub get_by_email-create :
      (s t : Store) (u w : User) (email : String)
      → create to_lower s u ≡ (t, ok tt)
      → to_lower email ≡ to_lower u.email
      → w.email ≡ email
      → (get_by_email to_lower t email ≡ ok (lowered to_lower u))
        × (get_by_id t u.id ≡ ok (lowered to_lower u))
        × (create to_lower t w ≡ (t, err conflict))
  unfolding create get_by_email get_by_id
  get_by_email-create s t u w email e same alike =
      elim (Option-cases (find s.by_email (to_lower u.email))) [
        | inr (id, taken) ↦ absurd (ground arith)
        | inl free ↦
            let entered : find t.by_email (to_lower email) ≡ some u.id = ground (
              arith,
              find-store_at s.by_email (to_lower u.email) (to_lower email) u.id,
              eq_iff (to_lower u.email) (to_lower email),
            ) in
            let stored : find t.users u.id ≡ some (lowered to_lower u) =
              ground (arith, find-store_at s.users u.id u.id (lowered to_lower u), eq_refl u.id) in
            (ground arith, ground arith, ground arith)
      ]
