-- ===== src/Web/Admin.antt =====
-- The administration of clients, users and the audit trail: apps/server/internal/web/admin.go. A
-- handler takes the body that `decodeJSON` reads, `none` where it fails.
pub mod Guard
pub mod Secrets
pub mod Uris
pub mod Disabled
use Prim.Native.Char.{Char, code}
use Prim.Native.String
use Prim.Native.String.{len}
use pf_identity.Common.{
  ℕ, ◌+◌, ◌*◌, ◌-◌, String, Bool, true, false, not, ◌&&◌, ◌||◌, List, [], ◌∷◌, ◌++◌, Option, none,
  some, ◌==◌, if◌then◌else◌, ltb, leb, member, same_number, map,
}
use pf_identity.Common.Text.{trim_space}
use pf_identity.Config.{Config}
use pf_identity.Domain.{
  Result, ok, err, Error, not_found, conflict, other, error_text, Client, ClientPatch, ClientType,
  client_confidential, client_public, User,
}
use pf_identity.OAuth.Redirect.{parse_redirect_uri}
use pf_identity.Password.{hash, digits_from}
use pf_identity.Platform.{Platform}
use pf_identity.Store.{Store}
use pf_identity.Store.Audits.{list_audits}
use pf_identity.Store.Clients.{
  create_client, get_client, list_clients, update_client, set_client_secret,
}
use pf_identity.Store.Users.{list_users, set_user_disabled, get_by_id}
use pf_identity.Web.Current.{bearer}
use pf_identity.Web.Http.{
  Request, Response, http_error, json, H, Handler, pure, or_answer, or_refusal, refuse, answers,
  answer, fresh_id, next, stop, ◌>>=◌, ◌>>◌,
}
use pf_identity.Web.Views.{
  view_client, view_user, client_list, client_body, client_created, secret_body, user_list,
  user_body, audit_page,
}
use pf_identity.World.{World, ask, call, random_token}

pub record ClientInput : Type 0 where
  pub id : String
  pub name : String
  pub client_type : String
  pub redirect_uris : List String
  pub post_logout_redirect_uris : List String
  pub front_channel_logout_uri : String
  pub back_channel_logout_uri : String

-- `clientIDPattern`: `^[a-z0-9][a-z0-9-]{1,62}$`
unfoldable pub is_alnum : Char → Bool
is_alnum c = let n = code c in (leb 97 n && leb n 122) || (leb 48 n && leb n 57)

unfoldable pub all_id_chars : String → Bool
unfolding is_alnum
all_id_chars String.[] = true
all_id_chars (String.◌∷◌ c s) = (is_alnum c || same_number (code c) 45) && all_id_chars s

unfoldable pub client_id_pattern : String → Bool
unfolding is_alnum all_id_chars
client_id_pattern String.[] = false
client_id_pattern (String.◌∷◌ c s) = is_alnum c && all_id_chars s && leb 1 (len s) && leb (len s) 62

-- `if err != nil { http.Error(w, "invalid json", 400); return }`
abbrev pub decoded : {A : Type 0} → Option A → H A
decoded body w = elim body [
  | none ↦ (w, stop (http_error 400 "invalid json"))
  | some a ↦ (w, next a)
]

-- A missing row is answered with 404, another failure with 500.
unfoldable pub missing_or_store : String → Error → Response
missing_or_store text not_found = http_error 404 text
missing_or_store text _ = http_error 500 "store"

unfoldable pub conflict_or_store : String → Error → Response
conflict_or_store text conflict = http_error 409 text
conflict_or_store text _ = http_error 500 "store"

-- `errors.New` of the three readers of URIs.
abbrev pub bad_uri : String → Error
bad_uri field = other (String.◌++◌ field " must be an absolute http(s) URL without a fragment")

abbrev pub none_given : Error
none_given = other "at least one redirect_uri is required"

-- `strconv.Atoi` where what follows needs a number of at least 1: the digits, after a sign "+".
unfoldable pub positive_digits : String → Option ℕ
positive_digits s = if s == "" then none else elim (digits_from 0 s) [
  | none ↦ none
  | some n ↦ if ltb n 1 || ltb 9_223_372_036_854_775_807 n then none else some n
]

unfoldable pub read_limit : String → Option ℕ
unfolding positive_digits
read_limit String.[] = none
read_limit (String.◌∷◌ c s) =
    if same_number (code c) 43 then positive_digits s else positive_digits (String.◌∷◌ c s)

module _ (p : Platform) where
  -- The loop of `normalizeRedirects` and `normalizeOptionalURIs`. `seen` and `out` of the source
  -- hold the same texts, so `out` is both.
  unfoldable pub gather_uris : String → List String → List String → Result (List String)
  gather_uris field out [] = ok out
  gather_uris field out (raw ∷ rest) =
      let item = trim_space raw in
      let skipped = gather_uris field out rest in
      let added = gather_uris field (out ++ item ∷ []) rest in
      if item == "" then skipped else elim (parse_redirect_uri p item) [
        | err _ ↦ err (bad_uri field)
        | ok _ ↦ if member item out then skipped else added
      ]

  -- `if len(out) == 0`
  abbrev nonempty : List String → Result (List String)
  nonempty [] = err none_given
  nonempty (u ∷ us) = ok (u ∷ us)

  unfoldable pub normalize_redirects : List String → Result (List String)
  unfolding gather_uris
  normalize_redirects [] = err none_given
  normalize_redirects (u ∷ us) = elim (gather_uris "redirect_uri" [] (u ∷ us)) [
    | err e ↦ err e
    | ok out ↦ nonempty out
  ]

  unfoldable pub normalize_optional_uris : List String → String → Result (List String)
  unfolding gather_uris
  normalize_optional_uris raw field = gather_uris field [] raw

  unfoldable pub normalize_optional_uri : String → String → Result String
  normalize_optional_uri raw field =
      let item = trim_space raw in
      if item == ""
      then ok ""
      else elim (parse_redirect_uri p item) [ err _ ↦ err (bad_uri field) | ok _ ↦ ok item ]

  module _ (cfg : Config) where
    unfoldable pub require_admin : Request → H (Unit {0})
    require_admin r = do
      refuse (cfg.admin_token == "") (http_error 401 "admin api disabled")
      refuse (not (bearer p r == cfg.admin_token)) (http_error 401 "unauthorized")

    -- `if err != nil { http.Error(w, err.Error(), 400); return }`
    abbrev or_bad : {A : Type 0} → Result A → H A
    or_bad a = or_refusal (λ w. (w, a)) (λ e. http_error 400 (error_text e))

    -- What an input gives a client: its name and its URIs, each checked in turn.
    unfoldable pub read_patch : ClientInput → H ClientPatch
    read_patch input = do
      uris ← or_bad (normalize_redirects input.redirect_uris)
      posts ←
          or_bad
            (normalize_optional_uris input.post_logout_redirect_uris "post_logout_redirect_uri")
      fc ← or_bad (normalize_optional_uri input.front_channel_logout_uri "frontchannel_logout_uri")
      bc ← or_bad (normalize_optional_uri input.back_channel_logout_uri "backchannel_logout_uri")
      pure (record {
        name = trim_space input.name;
        redirect_uris = uris;
        post_logout_redirect_uris = posts;
        front_channel_logout_uri = fc;
        back_channel_logout_uri = bc;
      })

    -- The new client's id: the one that is given, or a new one.
    unfoldable pub choose_client_id : String → H String
    choose_client_id raw =
        if trim_space raw == ""
        then fresh_id p >>= (λ id. pure (p.to_lower id))
        else pure (trim_space raw)

    -- A secret and its hash.
    unfoldable pub new_secret : H (String × String)
    new_secret = do
      plain ← or_answer (random_token p) (http_error 500 "secret")
      hashed ← or_answer (hash p plain) (http_error 500 "secret")
      pure (plain, hashed)

    abbrev pub new_client : String → ClientPatch → ClientType → String → String → Client
    new_client id patch client_type secret_hash auth = record {
      id = id;
      name = patch.name;
      client_type = client_type;
      secret_hash = secret_hash;
      redirect_uris = patch.redirect_uris;
      post_logout_redirect_uris = patch.post_logout_redirect_uris;
      front_channel_logout_uri = patch.front_channel_logout_uri;
      back_channel_logout_uri = patch.back_channel_logout_uri;
      token_endpoint_auth = auth;
    }

    -- The switch on the type: the client, and its secret if it has one.
    unfoldable pub make_client : String → ClientPatch → String → H (Client × Option String)
    unfolding new_secret
    make_client id patch client_type =
        if client_type == client_confidential
        then new_secret >>= (λ s.
          pure (new_client id patch client_confidential s.1 "client_secret_basic", some s.0))
        else if client_type == client_public || client_type == ""
        then pure (new_client id patch client_public "" "none", none)
        else answer (http_error 400 "type must be public or confidential")

    unfoldable pub admin_create_client : Request → Option ClientInput → H Response
    unfolding require_admin read_patch choose_client_id make_client conflict_or_store
    admin_create_client r body = do
      require_admin r
      input ← decoded body
      refuse (trim_space input.name == "") (http_error 400 "name is required")
      id ← choose_client_id input.id
      refuse (not (client_id_pattern id))
          (http_error 400 "id must be lowercase alphanumeric with hyphens")
      patch ← read_patch input
      made ← make_client id patch input.client_type
      or_refusal (call λ s. create_client s made.0) (conflict_or_store "client id already exists")
      pure (json 201 (client_created (view_client made.0) made.1))

    unfoldable pub handle_admin_create_client : Request → Option ClientInput → Handler
    handle_admin_create_client r body = answers (admin_create_client r body)

    unfoldable pub handle_admin_list_clients : Request → Handler
    unfolding require_admin
    handle_admin_list_clients r = answers (do
      require_admin r
      list ← or_answer (ask λ s. list_clients s) (http_error 500 "store")
      pure (json 200 (client_list (map view_client list))))

    unfoldable pub handle_admin_get_client : Request → Handler
    unfolding require_admin
    handle_admin_get_client r = answers (do
      require_admin r
      c ← or_answer (ask λ s. get_client s (r.path_value "id")) (http_error 404 "not found")
      pure (json 200 (client_body (view_client c))))

    unfoldable pub handle_admin_update_client : Request → Option ClientInput → Handler
    unfolding require_admin read_patch missing_or_store
    handle_admin_update_client r body = answers (do
      require_admin r
      input ← decoded body
      refuse (trim_space input.name == "") (http_error 400 "name is required")
      patch ← read_patch input
      or_refusal (call λ s. update_client s (r.path_value "id") patch)
          (missing_or_store "not found")
      c ← or_answer (ask λ s. get_client s (r.path_value "id")) (http_error 500 "store")
      pure (json 200 (client_body (view_client c))))

    unfoldable pub admin_rotate_secret : Request → H Response
    unfolding require_admin new_secret
    admin_rotate_secret r = do
      require_admin r
      c ← or_answer (ask λ s. get_client s (r.path_value "id")) (http_error 404 "not found")
      refuse (not (c.client_type == client_confidential))
          (http_error 400 "public clients have no secret")
      made ← new_secret
      or_answer (call λ s. set_client_secret s c.id made.1) (http_error 500 "store")
      pure (json 200 (secret_body made.0))

    unfoldable pub handle_admin_rotate_secret : Request → Handler
    handle_admin_rotate_secret r = answers (admin_rotate_secret r)

    unfoldable pub handle_admin_list_users : Request → Handler
    unfolding require_admin
    handle_admin_list_users r = answers (do
      require_admin r
      list ← or_answer (ask λ s. list_users s) (http_error 500 "store")
      pure (json 200 (user_list (map (view_user p) list))))

    unfoldable pub handle_admin_set_disabled : Request → Option Bool → Handler
    unfolding require_admin missing_or_store
    handle_admin_set_disabled r body = answers (do
      require_admin r
      disabled ← decoded body
      or_refusal (call λ s. set_user_disabled s (r.path_value "id") disabled)
          (missing_or_store "not found")
      u ← or_answer (ask λ s. get_by_id s (r.path_value "id")) (http_error 500 "store")
      pure (json 200 (user_body (view_user p u))))

    -- The limit of the query: 20 where it names none.
    unfoldable pub audit_limit : Request → Option ℕ
    audit_limit r =
        if trim_space (r.query "limit") == ""
        then some 20
        else read_limit (trim_space (r.query "limit"))

    abbrev unknown_cursor : Error → Response
    unknown_cursor not_found = http_error 400 "unknown cursor"
    unknown_cursor _ = http_error 500 "store"

    unfoldable pub handle_admin_list_audits : Request → Handler
    unfolding require_admin audit_limit
    handle_admin_list_audits r = answers (do
      require_admin r
      limit ←
          or_answer (λ w. (w, elim (audit_limit r) [ none ↦ err not_found | some n ↦ ok n ]))
            (http_error 400 "invalid limit")
      page ← or_refusal (ask λ s. list_audits s limit (trim_space (r.query "after"))) unknown_cursor
      pure (json 200 (audit_page page)))
