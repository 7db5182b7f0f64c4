-- ===== src/Web/Admin/Secrets.antt =====
-- The secrets that the administration hands out (`handleAdminCreateClient` and
-- `handleAdminRotateSecret` of apps/server/internal/web/admin.go) and what the token endpoint makes
-- of them (`authenticateClient` of token.go).
use pf_identity.Common.{
  ℕ, ◌+◌, String, ◌≡◌, false, List, Option, some, inl, inr, arith, ◌==◌, ◌||◌, eq_iff, eq_refl,
  Bool-cases, Option-cases, length, find, find-store_at,
}
use pf_identity.Account.Registered.{hash-ne-nil}
use pf_identity.Common.Text.{contains_char, trim_space}
use pf_identity.Config.{Config}
use pf_identity.Domain.{ok, Client, ClientPatch, client_confidential, client_public, Result-cases}
use pf_identity.Password.{hash, time_cost, memory_kib, threads, key_len, salt_len}
use pf_identity.Password.RoundTrip.{verify-hash}
use pf_identity.Platform.{Platform}
use pf_identity.Store.{Store}
use pf_identity.Store.Clients.{create_client, get_client, set_client_secret}
use pf_identity.Store.History.Keys.{HasOwnId}
use pf_identity.Web.Admin.{
  ClientInput, client_id_pattern, new_secret, make_client, admin_create_client, admin_rotate_secret,
  choose_client_id, read_patch,
}
use pf_identity.Web.AdminOrgs.Led.{require_admin-cases}
use pf_identity.Web.Http.{Request, json, next, Flow-cases}
use pf_identity.Web.Issue.{credentials, authenticate_client}
use pf_identity.Web.Views.{AdminClientView, view_client, client_created, secret_body}
use pf_identity.World.{World, random_token, bytes}

get_client-find :
    (s : Store) (id : String) (c : Client) → get_client s id ≡ ok c → find s.clients id ≡ some c
unfolding get_client
get_client-find s id c e = elim (Option-cases (find s.clients id)) [
  | inl missing ↦ absurd (ground arith)
  | inr (d, here) ↦ ground arith
]

set_client_secret-get :
    (s : Store) (c : Client) (secret_hash : String)
    → find s.clients c.id ≡ some c
    → ((set_client_secret s c.id secret_hash).1 ≡ ok tt)
      × (get_client (set_client_secret s c.id secret_hash).0 c.id
          ≡ ok (record c { secret_hash = secret_hash }))
unfolding get_client set_client_secret
set_client_secret-get s c secret_hash here =
    let d = record c { secret_hash = secret_hash } in
    ground (arith, find-store_at s.clients c.id c.id d, eq_refl c.id)

create_client-get :
    (s : Store) (c : Client)
    → (create_client s c).1 ≡ ok tt
    → get_client (create_client s c).0 c.id ≡ ok c
unfolding get_client create_client
create_client-get s c made = elim (Option-cases (find s.clients c.id)) [
  | inl free ↦ ground (arith, find-store_at s.clients c.id c.id c, eq_refl c.id)
  | inr (d, taken) ↦ absurd (ground arith)
]

module _ (p : Platform)
    (decode_encode : (b : List ℕ) → p.raw_std_decode (p.raw_std_encode b) ≡ some b)
    (no_dollar : (b : List ℕ) → contains_char (p.raw_std_encode b) b'$' ≡ false)
    (key_length : (plain : String) (salt : List ℕ)
      → length (p.id_key plain salt time_cost memory_kib threads key_len) ≡ key_len) where
  -- A stored client whose hash was made from a text is authenticated by that text.
  authenticate_client-hash :
      (q : Request) (s : Store) (c : Client) (plain : String) (v v' : World)
      → credentials q ≡ (c.id, plain)
      → get_client s c.id ≡ ok c
      → hash p plain v ≡ (v', ok c.secret_hash)
      → c.client_type ≡ client_confidential
      → authenticate_client p q s ≡ ok c
  unfolding authenticate_client
  authenticate_client-hash q s c plain v v' sent here made kind =
      let given = hash-ne-nil p plain v v' c.secret_hash made in
      let (own, _) =
        verify-hash p decode_encode no_dollar key_length plain plain c.secret_hash v v' made
          given in
      ground (arith, own, eq_iff c.client_type client_confidential)

  -- A new secret, and the hash that is made from it.
  new_secret-hash :
      (cfg : Config) (w w' : World) (plain hashed : String)
      → new_secret p cfg w ≡ (w', next (plain, hashed))
      → (w'.store ≡ w.store) × ((v : World) × (hash p plain v ≡ (w', ok hashed)))
  unfolding new_secret random_token bytes hash
  new_secret-hash cfg w w' plain hashed e = elim (Option-cases (p.rand_read w.reads 32)) [
    | inl dry ↦ absurd (ground arith)
    | inr (b, drawn) ↦
        let v = record w { reads = w.reads + 1 } in
        elim (Option-cases (p.rand_read v.reads salt_len)) [
          | inl dry ↦ absurd (ground arith)
          | inr (salt, more) ↦ (ground arith, (v, ground arith))
        ]
  ]

  -- A client that is made with a secret holds the hash of it.
  make_client-hash :
      (cfg : Config) (id kind : String) (patch : ClientPatch) (w w' : World) (c : Client)
      (plain : String)
      → make_client p cfg id patch kind w ≡ (w', next (c, some plain))
      → (c.client_type ≡ client_confidential)
        × ((v : World) × (hash p plain v ≡ (w', ok c.secret_hash)))
  unfolding make_client
  make_client-hash cfg id kind patch w w' c plain e =
      elim (Bool-cases (kind == client_confidential)) [
        | inr public ↦ elim (Bool-cases (kind == client_public || kind == "")) [
          | inl known ↦ absurd (ground arith)
          | inr strange ↦ absurd (ground arith)
        ]
        | inl secret ↦ elim (Flow-cases (new_secret p cfg w)) [
          | inr (x, dry) ↦ absurd (ground arith)
          | inl ((text, hashed), made) ↦
              let (same, (v, derived)) =
                new_secret-hash cfg w (new_secret p cfg w).0 text hashed made in
              (ground arith, (v, ground arith))
        ]
      ]

  module _ (cfg : Config) (r q : Request) where
    -- A secret that is rotated is good at once: where the route answers with a new secret, the
    -- client that sends it with its id is authenticated against the state after the answer.
    pub admin_rotate_secret-authenticates :
        (w w' : World) (plain : String)
        → admin_rotate_secret p cfg r w ≡ (w', next (json 200 (secret_body plain)))
        → HasOwnId w.store (r.path_value "id")
        → credentials q ≡ (r.path_value "id", plain)
        → (c : Client) × (authenticate_client p q w'.store ≡ ok c) × (c.id ≡ r.path_value "id")
    unfolding admin_rotate_secret
    admin_rotate_secret-authenticates w w' plain e own sent = elim (require_admin-cases p cfg r w) [
      | inr (x, refused) ↦ absurd (ground arith)
      | inl admin ↦ elim (Result-cases (get_client w.store (r.path_value "id"))) [
        | inr (x, missing) ↦ absurd (ground arith)
        | inl (c, here) ↦ elim (Bool-cases (c.client_type == client_confidential)) [
          | inr public ↦ absurd (ground arith)
          | inl kind ↦ elim (Flow-cases (new_secret p cfg w)) [
            | inr (x, dry) ↦ absurd (ground arith)
            | inl ((text, hashed), made) ↦
                let v = (new_secret p cfg w).0 in
                let (same, (before, derived)) = new_secret-hash cfg w v text hashed made in
                let d = record c { secret_hash = hashed } in
                let found = get_client-find w.store (r.path_value "id") c here in
                let named = own c found in
                let (written, stored) =
                  set_client_secret-get w.store c hashed (ground (arith, found, named)) in
                let after = (set_client_secret w.store c.id hashed).0 in
                let good : authenticate_client p q after ≡ ok d =
                  authenticate_client-hash q after d text before v (ground arith) stored derived
                    ((eq_iff _ _).0 kind) in
                (d, ground arith, named)
          ]
        ]
      ]
    ]

    -- A confidential client that is registered can authenticate at once: where the route answers
    -- with a client and a secret, the client that sends that id and that secret is authenticated
    -- against the state after the answer.
    pub admin_create_client-authenticates :
        (body : Option ClientInput) (w w' : World) (view : AdminClientView) (plain : String)
        → admin_create_client p cfg r body w
          ≡ (w', next (json 201 (client_created view (some plain))))
        → credentials q ≡ (view.id, plain)
        → (c : Client) × (authenticate_client p q w'.store ≡ ok c) × (c.id ≡ view.id)
    unfolding admin_create_client make_client view_client
    admin_create_client-authenticates body w w' view plain e sent =
        elim (require_admin-cases p cfg r w) [
          | inr (x, refused) ↦ absurd (ground arith)
          | inl admin ↦ elim (Option-cases body) [
            | inl garbled ↦ absurd (ground arith)
            | inr (input, given) ↦ elim (Bool-cases (trim_space input.name == "")) [
              | inl nameless ↦ absurd (ground arith)
              | inr named ↦ elim (Flow-cases (choose_client_id p cfg input.id w)) [
                | inr (x, lost) ↦ absurd (ground arith)
                | inl (id, chosen) ↦
                    let w1 = (choose_client_id p cfg input.id w).0 in
                    elim (Bool-cases (client_id_pattern id)) [
                      | inr strange ↦ absurd (ground arith)
                      | inl fits ↦ elim (Flow-cases (read_patch p cfg input w1)) [
                        | inr (x, bad) ↦ absurd (ground arith)
                        | inl (patch, read) ↦
                            elim (Flow-cases (
                              make_client p cfg id patch input.client_type
                                (read_patch p cfg input w1).0)) [
                                  | inr (x, bad) ↦ absurd (ground arith)
                                  | inl ((c, secret), built) ↦ elim (Option-cases secret) [
                                    | inl bare ↦ absurd (ground arith)
                                    | inr (text, handed) ↦
                                        elim (Result-cases
                                          (create_client
                                            (make_client p cfg id patch input.client_type
                                              (read_patch p cfg input w1).0).0.store
                                            c).1) [
                                              | inr (x, taken) ↦ absurd (ground arith)
                                              | inl (y, stored) ↦
                                                  let w2 = (read_patch p cfg input w1).0 in
                                                  let w3 =
                                                    (make_client p cfg id patch input.client_type
                                                      w2).0 in
                                                  let after = (create_client w3.store c).0 in
                                                  let (kind, (v, derived)) =
                                                    make_client-hash cfg id input.client_type patch
                                                      w2 w3 c text (ground arith) in
                                                  let good : authenticate_client p q after ≡ ok c =
                                                    authenticate_client-hash q after c text v w3
                                                      (ground arith)
                                                      (create_client-get w3.store c stored) derived
                                                      kind in
                                                  (c, ground arith, ground arith)
                                            ]
                                  ]
                                ]
                      ]
                    ]
              ]
            ]
          ]
        ]
