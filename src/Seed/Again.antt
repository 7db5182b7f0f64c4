-- ===== src/Seed/Again.antt =====
-- Seeding a client, once and again (`upsertPublicClient`, `unionExact` and `sameStrings` of apps/server/internal/seed/seed.go).
use pf_identity.Common.{
  String, ◌≡◌, refl, sym, subst, true, false, ◌||◌, List, [], ◌∷◌, ◌++◌, some, inl, inr, arith,
  ◌==◌, eq_iff, eq_refl, find, find-store_at, Bool-cases, Option-cases, member, All, if◌then◌else◌,
  ◌⊎◌,
}
use pf_identity.Domain.{ok, err, Error, Client, client_public, Result, Result-cases}
use pf_identity.Platform.{Platform}
use pf_identity.Seed.{
  union_exact, same_strings, is_current, merged, upsert_client, wanted_client,
  default_post_logout_uri, replace_callback_path, upsert_public_client,
}
use pf_identity.Store.History.Keys.{HasOwnId}
use pf_identity.Store.Clients.{create_client, get_client, update_client, apply_patch}
use pf_identity.World.{World}

same_strings_refl : (xs : List String) → same_strings xs xs ≡ true
unfolding same_strings
same_strings_refl [] = refl
same_strings_refl (x ∷ xs) = ground (arith, eq_refl x, same_strings_refl xs)

same_strings_sound : (xs ys : List String) → same_strings xs ys ≡ true → xs ≡ ys
unfolding same_strings
same_strings_sound [] [] h = refl
same_strings_sound [] (y ∷ ys) h = absurd (ground arith)
same_strings_sound (x ∷ xs) [] h = absurd (ground arith)
same_strings_sound (x ∷ xs) (y ∷ ys) h = ground (arith, eq_iff x y, same_strings_sound xs ys)

member-append :
    (x : String) (xs ys : List String) → member x (xs ++ ys) ≡ (member x xs || member x ys)
member-append x [] ys = refl
member-append x (y ∷ xs) ys = ground (arith, member-append x xs ys)

-- What was registered stays registered.
pub union_exact-keeps :
    (x : String) (out add : List String)
    → member x out ≡ true
    → member x (union_exact out add) ≡ true
unfolding union_exact
union_exact-keeps x out [] h = h
union_exact-keeps x out (a ∷ add) h =
    let more = member-append x out (a ∷ []) in
    elim (Bool-cases (member a out)) [
      | inl there ↦ ground (arith, union_exact-keeps x out add h)
      | inr absent ↦ ground (arith, union_exact-keeps x (out ++ a ∷ []) add (ground (arith, more)))
    ]

union_exact-seen :
    (a : String) (out add : List String)
    → member a out ≡ true
    → union_exact out (a ∷ add) ≡ union_exact out add
unfolding union_exact
union_exact-seen a out add h = ground arith

union_exact-new :
    (a : String) (out add : List String)
    → member a out ≡ false
    → union_exact out (a ∷ add) ≡ union_exact (out ++ a ∷ []) add
unfolding union_exact
union_exact-new a out add h = ground arith

abbrev Holds : List String → List String → Type 0
Holds add out = All (λ x. member x out ≡ true) add

-- What is added is registered.
pub union_exact-adds :
    (out add : List String) → All (λ x. member x (union_exact out add) ≡ true) add
union_exact-adds out [] = tt
union_exact-adds out (a ∷ add) = elim (Bool-cases (member a out)) [
  | inl there ↦
      subst (Holds (a ∷ add)) (sym (union_exact-seen a out add there))
        (union_exact-keeps a out add there, union_exact-adds out add)
  | inr absent ↦
      let held : member a (out ++ a ∷ []) ≡ true =
        ground (arith, member-append a out (a ∷ []), eq_refl a) in
      subst (Holds (a ∷ add)) (sym (union_exact-new a out add absent))
        (union_exact-keeps a (out ++ a ∷ []) add held, union_exact-adds (out ++ a ∷ []) add)
]

-- Where nothing is missing, nothing is added.
pub union_exact-All :
    (out add : List String) → All (λ x. member x out ≡ true) add → union_exact out add ≡ out
unfolding union_exact
union_exact-All out [] h = refl
union_exact-All out (a ∷ add) (here, rest) = ground (arith, union_exact-All out add rest)

union_exact-twice :
    (out add : List String) → union_exact (union_exact out add) add ≡ union_exact out add
union_exact-twice out add = union_exact-All (union_exact out add) add (union_exact-adds out add)

is_current-merged :
    (existing want : Client) → is_current (apply_patch existing (merged existing want)) want ≡ true
unfolding is_current apply_patch
is_current-merged existing want =
    let uris = union_exact existing.redirect_uris want.redirect_uris in
    let posts = union_exact existing.post_logout_redirect_uris want.post_logout_redirect_uris in
    rw (union_exact-twice existing.redirect_uris want.redirect_uris) (
      rw (union_exact-twice existing.post_logout_redirect_uris want.post_logout_redirect_uris) (
        ground (
          arith,
          same_strings_refl uris,
          same_strings_refl posts,
          eq_refl want.name,
          eq_refl want.front_channel_logout_uri,
          eq_refl want.back_channel_logout_uri,
        )))

-- A list of one text holds what it holds.
union_exact-single : (x : String) → union_exact (x ∷ []) (x ∷ []) ≡ x ∷ []
union_exact-single x = union_exact-All (x ∷ []) (x ∷ []) (ground (arith, eq_refl x), tt)

-- A client that has all that is wanted has a wanted URI.
is_current-member :
    (c want : Client) (uri : String)
    → want.redirect_uris ≡ uri ∷ []
    → is_current c want ≡ true
    → member uri c.redirect_uris ≡ true
unfolding is_current
is_current-member c want uri one h =
    let both = union_exact c.redirect_uris want.redirect_uris in
    let same : c.redirect_uris ≡ both = same_strings_sound c.redirect_uris both (ground arith) in
    let held = union_exact-adds c.redirect_uris (uri ∷ []) in ground (arith, held.0, same, one)

-- A client that has all that is wanted has the wanted name.
is_current-name : (c want : Client) → is_current c want ≡ true → c.name ≡ want.name
unfolding is_current
is_current-name c want h = ground (arith, eq_iff c.name want.name)

upsert_client-current :
    (want c : Client) (w : World)
    → find w.store.clients want.id ≡ some c
    → is_current c want ≡ true
    → upsert_client want w ≡ (w, ok tt)
unfolding upsert_client get_client
upsert_client-current want c w here now = ground arith

-- A client that needs nothing from itself: its lists have no entry twice.
abbrev IsExact : Client → Type 0
IsExact want = is_current want want ≡ true

module _ (want : Client) (w : World) (own : HasOwnId w.store want.id) (exact : IsExact want) where
  -- Of a client that was there, a redirect URI, the type and the secret stay.
  upsert_client-keeps :
      (w' : World) (old : Client) (uri : String)
      → upsert_client want w ≡ (w', ok tt)
      → find w.store.clients want.id ≡ some old
      → member uri old.redirect_uris ≡ true
      → (c : Client) × (find w'.store.clients want.id ≡ some c)
        × (member uri c.redirect_uris ≡ true)
        × (c.client_type ≡ old.client_type)
        × (c.secret_hash ≡ old.secret_hash)
  unfolding upsert_client get_client update_client apply_patch
  upsert_client-keeps w' old uri e here had = elim (Bool-cases (is_current old want)) [
    | inl now ↦ (old, ground arith, had, refl, refl)
    | inr stale ↦
        let patched = apply_patch old (merged old want) in
        (
          patched,
          ground (
            arith,
            own old here,
            find-store_at w.store.clients want.id want.id patched,
            eq_refl want.id,
          ),
          union_exact-keeps uri old.redirect_uris want.redirect_uris had,
          refl,
          refl,
        )
  ]

  -- What a first run leaves: the wanted client's row, with all that is wanted.
  pub upsert_client-done :
      (w' : World)
      → upsert_client want w ≡ (w', ok tt)
      → (c : Client) × (find w'.store.clients want.id ≡ some c) × (is_current c want ≡ true)
  unfolding upsert_client get_client update_client create_client
  upsert_client-done w' e = elim (Option-cases (find w.store.clients want.id)) [
    | inl missing ↦ (
      want,
      ground (arith, find-store_at w.store.clients want.id want.id want, eq_refl want.id),
      exact,
    )
    | inr (c, here) ↦ elim (Bool-cases (is_current c want)) [
      | inl now ↦ (c, ground arith, now)
      | inr stale ↦
          let patched = apply_patch c (merged c want) in
          (
            patched,
            ground (
              arith,
              own c here,
              find-store_at w.store.clients want.id want.id patched,
              eq_refl want.id,
            ),
            is_current-merged c want,
          )
    ]
  ]

  pub upsert_client-again :
      (w' : World) → upsert_client want w ≡ (w', ok tt) → upsert_client want w' ≡ (w', ok tt)
  upsert_client-again w' e =
      let (c, here, now) = upsert_client-done w' e in upsert_client-current want c w' here now

-- What a wanted client is made of.
record IsWanted (id name redirect : String) (c : Client) : Type 0 where
  named : c.id ≡ id
  titled : c.name ≡ name
  uris : c.redirect_uris ≡ redirect ∷ []
  public : c.client_type ≡ client_public
  post : String
  posts : c.post_logout_redirect_uris ≡ post ∷ []

IsWanted-IsExact :
    (id name redirect : String) (c : Client) → IsWanted id name redirect c → IsExact c
unfolding is_current
IsWanted-IsExact id name redirect c v = rw v.uris (
    rw v.posts (
      rw (union_exact-single redirect) (
        rw (union_exact-single v.post) (
          ground (
            arith,
            same_strings_refl (redirect ∷ []),
            same_strings_refl (v.post ∷ []),
            eq_refl c.name,
            eq_refl c.front_channel_logout_uri,
            eq_refl c.back_channel_logout_uri,
          )))))

module _ (p : Platform) (id name redirect post : String) where
  abbrev chosen_post : Result String
  chosen_post = if post == "" then default_post_logout_uri p redirect else ok post

  -- The client that is wanted is built or refused whatever the state is.
  wanted_client-cases :
      (w : World)
      → ((c : Client) × IsWanted id name redirect c
          × ((v : World) → wanted_client p id name redirect post v ≡ (v, ok c)))
        ⊎ ((x : Error) × (wanted_client p id name redirect post w ≡ (w, err x)))
  unfolding wanted_client default_post_logout_uri
  wanted_client-cases w = elim (Result-cases chosen_post) [
    | inr (x, bad) ↦ inr (x, ground arith)
    | inl (u, chosen) ↦
        elim (Result-cases (replace_callback_path p redirect "/frontchannel-logout")) [
          | inr (x, bad) ↦ inr (x, ground arith)
          | inl (front, fronted) ↦
              elim (Result-cases (replace_callback_path p redirect "/backchannel-logout")) [
                | inr (x, bad) ↦ inr (x, ground arith)
                | inl (back, backed) ↦ inl (
                  record {
                    id = id;
                    name = name;
                    client_type = client_public;
                    secret_hash = "";
                    redirect_uris = redirect ∷ [];
                    post_logout_redirect_uris = u ∷ [];
                    front_channel_logout_uri = front;
                    back_channel_logout_uri = back;
                    token_endpoint_auth = "";
                  },
                  record {
                    named = refl;
                    titled = refl;
                    uris = refl;
                    public = refl;
                    post = u;
                    posts = refl;
                  },
                  λ v. ground arith,
                )
              ]
        ]
  ]

  module _ (w w' : World) (own : HasOwnId w.store id)
      (done : upsert_public_client p id name redirect post w ≡ (w', ok tt)) where
    -- The server may start as often as it likes: once a client is seeded, seeding it again
    -- succeeds and changes nothing.
    pub upsert_public_client-again : upsert_public_client p id name redirect post w' ≡ (w', ok tt)
    unfolding upsert_public_client
    upsert_public_client-again = elim (wanted_client-cases w) [
      | inr (x, bad) ↦ absurd (ground arith)
      | inl (c, v, built) ↦
          let own' : HasOwnId w.store c.id = rw v.named own in
          let first : upsert_client c w ≡ (w', ok tt) = ground (arith, built w) in
          ground (
            arith,
            built w',
            upsert_client-again c w own' (IsWanted-IsExact id name redirect c v) w' first,
          )
    ]

    -- Seeding a client that is there keeps its redirect URIs, its type and its secret: a redirect
    -- URI it had stays, the seeded one is registered too, and type and secret stay as they were. Its
    -- name is the seeded one afterwards. Its logout URIs, which are set to seeded ones as well, are
    -- not concerned.
    pub upsert_public_client-keeps :
        (old : Client) (uri : String)
        → find w.store.clients id ≡ some old
        → member uri old.redirect_uris ≡ true
        → (c : Client) × (get_client w'.store id ≡ ok c)
          × (member uri c.redirect_uris ≡ true)
          × (member redirect c.redirect_uris ≡ true)
          × (c.name ≡ name)
          × (c.client_type ≡ old.client_type)
          × (c.secret_hash ≡ old.secret_hash)
    unfolding upsert_public_client get_client
    upsert_public_client-keeps old uri here had = elim (wanted_client-cases w) [
      | inr (x, bad) ↦ absurd (ground arith)
      | inl (c, v, built) ↦
          let own' : HasOwnId w.store c.id = rw v.named own in
          let exact = IsWanted-IsExact id name redirect c v in
          let first : upsert_client c w ≡ (w', ok tt) = ground (arith, built w) in
          let (new, here', now) = upsert_client-done c w own' exact w' first in
          let (kept, there, uris, kind, secret) =
            upsert_client-keeps c w own' exact w' old uri first (rw v.named here) had in
          let one : kept ≡ new = ground arith in
          (
            kept,
            ground (arith, v.named),
            uris,
            ground (arith, one, is_current-member new c redirect v.uris now),
            ground (arith, one, is_current-name new c now, v.titled),
            kind,
            secret,
          )
    ]
