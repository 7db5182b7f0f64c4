-- ===== src/Web/Admin/Disabled.antt =====
-- What disabling an account does to its sessions and its access tokens: `handleAdminSetDisabled` of
-- apps/server/internal/web/admin.go, against `currentUser` of server.go, `bearerUser` of
-- orgs.go and `Authenticate` of the account service.
use pf_identity.Common.{
  ℕ, String, ◌≡◌, ◌≢◌, refl, true, List, some, inl, inr, arith, eq_iff, Option-cases, find,
  find-store_at,
}
use pf_identity.Account.{normalize_email, authenticate}
use pf_identity.Account.Login.{authenticate_sound}
use pf_identity.Config.{Config}
use pf_identity.Domain.{ok, Error, not_found, User, Result-cases}
use pf_identity.Platform.{Platform}
use pf_identity.Session.{cookie_name, lookup, lookup_session}
use pf_identity.Session.Lifetime.{lookup_session_sound}
use pf_identity.Store.{Store}
use pf_identity.Store.Users.{get_by_id, set_user_disabled}
use pf_identity.Store.Users.Index.{IsIndexed, set_user_disabled-IsIndexed}
use pf_identity.Web.Admin.{handle_admin_set_disabled, missing_or_store}
use pf_identity.Web.AdminOrgs.Led.{require_admin-cases}
use pf_identity.Web.Current.{enabled_user, current_user, bearer_user, live_token}
use pf_identity.Web.Http.{Request, json, http_error}
use pf_identity.Web.Views.{AdminUserView, user_body}
use pf_identity.World.{World}

-- Whoever is found enabled under some id is not the account with this id.
abbrev IsLockedOut : Store → String → Type 0
IsLockedOut s id = (uid : String) (u : User) → enabled_user s uid ≡ some u → u.id ≢ id

missing_or_store-http_error :
    (text : String) (x : Error)
    → (code : ℕ) × (answer : String) × (missing_or_store text x ≡ http_error code answer)
unfolding missing_or_store
missing_or_store-http_error text not_found = (404, text, refl)
missing_or_store-http_error text x = (500, "store", refl)

module _ (lower : String → String) (lower_idem : (e : String) → lower (lower e) ≡ lower e) where
  set_user_disabled-IsLockedOut :
      (s : Store) (id : String)
      → IsIndexed lower s
      → (set_user_disabled s id true).1 ≡ ok tt
      → IsLockedOut (set_user_disabled s id true).0 id
  unfolding enabled_user get_by_id set_user_disabled
  set_user_disabled-IsLockedOut s id v done uid u found same =
      elim (Option-cases (find s.users id)) [
        | inl missing ↦ ground arith
        | inr (d, here) ↦
            let after = (set_user_disabled s id true).0 in
            let v' = set_user_disabled-IsIndexed lower lower_idem s id true v in
            elim (Option-cases (find after.users uid)) [
              | inl absent ↦ ground arith
              | inr (x, at_uid) ↦
                  let (own, _, _) = v'.account uid x at_uid in
                  let written = find-store_at s.users id uid (record d { disabled = true }) in
                  ground (arith, own, written, eq_iff id uid)
            ]
      ]

module _ (p : Platform) where
  -- A request of a browser is of a user who is found enabled.
  current_user-enabled :
      (q : Request) (w : World) (u : User)
      → (current_user p q w).1 ≡ some u
      → (uid : String) × (enabled_user w.store uid ≡ some u)
  unfolding current_user lookup
  current_user-enabled q w u e = elim (Option-cases (q.cookie cookie_name)) [
    | inl bare ↦ absurd (ground arith)
    | inr (value, held) ↦ elim (Result-cases (lookup_session p value w).1) [
      | inr (x, unknown) ↦ absurd (ground arith)
      | inl (row, found) ↦
          let (_, _, same) =
            lookup_session_sound p value w (lookup_session p value w).0 row (ground arith) in
          (row.user_id, ground (arith, same))
    ]
  ]

  bearer_user-enabled :
      (q : Request) (w : World) (u : User) (scopes : List String)
      → bearer_user p q w ≡ some (u, scopes)
      → (uid : String) × (enabled_user w.store uid ≡ some u)
  unfolding bearer_user
  bearer_user-enabled q w u scopes e = elim (Option-cases (live_token p q w)) [
    | inl dead ↦ absurd (ground arith)
    | inr (tok, live) ↦ elim (Option-cases (enabled_user w.store tok.user_id)) [
      | inl locked ↦ absurd (ground arith)
      | inr (x, here) ↦ (tok.user_id, ground arith)
    ]
  ]

-- Who logs in is found enabled under the account's id.
authenticate-enabled :
    (p : Platform)
    → ((e : String) → p.to_lower (p.to_lower e) ≡ p.to_lower e)
    → (email plain : String) (w : World) (u : User) → IsIndexed p.to_lower w.store
    → (authenticate p email plain w).1 ≡ ok u
    → enabled_user w.store u.id ≡ some u
unfolding authenticate enabled_user
authenticate-enabled p lower_idem email plain w u v done =
    elim (Result-cases (normalize_email p email)) [
      | inr (x, bad) ↦ absurd (ground arith)
      | inl (e, ne) ↦
          let (_, _, here, enabled, _) =
            authenticate_sound p lower_idem email plain e w (authenticate p email plain w).0 u v ne
              (ground arith) in
          ground (arith, here)
    ]

module _ (p : Platform) (cfg : Config)
    (lower_idem : (e : String) → p.to_lower (p.to_lower e) ≡ p.to_lower e) where
  -- After the route has answered with the disabled account, nobody is recognized as that account
  -- by a cookie in `currentUser`, by an access token in `bearerUser`, or by an address and a
  -- password in `Authenticate`, whatever sessions and tokens the account had. This is not said of
  -- userinfo and of the token endpoint, which use none of the three and do not ask whether an
  -- account is disabled. The store's index of addresses must be right and lower-casing twice must
  -- be lower-casing once.
  pub handle_admin_set_disabled_unrecognized :
      (r q : Request) (w w' : World) (view : AdminUserView) (u : User) (scopes : List String)
      (email plain : String)
      → IsIndexed p.to_lower w.store
      → handle_admin_set_disabled p cfg r (some true) w ≡ (w', json 200 (user_body view))
      → u.id ≡ r.path_value "id"
      → ((current_user p q w').1 ≢ some u)
        × (bearer_user p q w' ≢ some (u, scopes))
        × ((authenticate p email plain w').1 ≢ ok u)
  unfolding handle_admin_set_disabled
  handle_admin_set_disabled_unrecognized r q w w' view u scopes email plain v e same =
      elim (require_admin-cases p cfg r w) [
        | inr (x, refused) ↦ absurd (ground arith)
        | inl admin ↦ elim (Result-cases (set_user_disabled w.store (r.path_value "id") true).1) [
          | inr (x, missing) ↦
              let (code, text, what) = missing_or_store-http_error "not found" x in
              absurd (ground arith)
          | inl (y, done) ↦
              let locked =
                set_user_disabled-IsLockedOut p.to_lower lower_idem w.store (r.path_value "id") v
                  done in
              let after : w'.store ≡ (set_user_disabled w.store (r.path_value "id") true).0 =
                elim (Result-cases (
                  get_by_id (set_user_disabled w.store (r.path_value "id") true).0
                    (r.path_value "id"))) [
                      | inr (x, lost) ↦ absurd (ground arith)
                      | inl (x, found) ↦ ground arith
                    ] in
              let indexed : IsIndexed p.to_lower w'.store = rw after (
                set_user_disabled-IsIndexed p.to_lower lower_idem w.store (r.path_value "id") true
                  v) in
              (
                λ found.
                    let (uid, here) = current_user-enabled p q w' u found in
                    locked uid u (rw⁻¹ after here) same,
                λ found.
                    let (uid, here) = bearer_user-enabled p q w' u scopes found in
                    locked uid u (rw⁻¹ after here) same,
                λ found.
                    let here = authenticate-enabled p lower_idem email plain w' u indexed found in
                    locked u.id u (rw⁻¹ after here) same,
              )
        ]
      ]
