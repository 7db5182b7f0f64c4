-- ===== src/Web/Logout.antt =====
-- What a logout request asks for: `parseEndSession`, `parseHint` and `logoutClient` of
-- apps/server/internal/web/end_session.go.
use pf_identity.Common.{
  String, Bool, true, false, not, ◌||◌, List, [], ◌∷◌, Option, none, some, ◌==◌, if◌then◌else◌,
}
use pf_identity.Config.{Config}
use pf_identity.Domain.{Result, ok, err, Error, other, Client}
use pf_identity.OAuth.Redirect.{redirect_uri_exact}
use pf_identity.Oidc.{IdTokenHint, parse_id_token_hint}
use pf_identity.Platform.{Platform}
use pf_identity.Store.{Store}
use pf_identity.Store.Clients.{get_client}
use pf_identity.Web.Http.{Request}

-- `endSessionReq`
pub record EndSessionReq : Type 0 where
  pub id_token_hint : String
  pub client_id : String
  pub post_logout_redirect_uri : String
  pub state : String
  pub confirm : Bool

abbrev pub empty_req : EndSessionReq
empty_req = record {
  id_token_hint = "";
  client_id = "";
  post_logout_redirect_uri = "";
  state = "";
  confirm = false;
}

-- Where a client is not known yet: Go's zero `Client`.
abbrev pub no_client : Client
no_client = record {
  id = "";
  name = "";
  client_type = "";
  secret_hash = "";
  redirect_uris = [];
  post_logout_redirect_uris = [];
  front_channel_logout_uri = "";
  back_channel_logout_uri = "";
  token_endpoint_auth = "";
}

abbrev pub err_bad_logout_client : Error
err_bad_logout_client = other "unknown client_id"

abbrev pub err_bad_logout_redirect : Error
err_bad_logout_redirect = other "post_logout_redirect_uri is not registered"

-- `get`: the form for a POST, the query otherwise.
unfoldable pub parse_end_session : Request → EndSessionReq
parse_end_session r =
    let read = (if r.method == "POST" then r.form else r.query) in
    record {
      id_token_hint = read "id_token_hint";
      client_id = read "client_id";
      post_logout_redirect_uri = read "post_logout_redirect_uri";
      state = read "state";
      confirm = read "confirm" == "yes";
    }

unfoldable pub contains_audience : List String → String → Bool
contains_audience [] client_id = false
contains_audience (a ∷ aud) client_id =
    if a == client_id then true else contains_audience aud client_id

-- The loop of `logoutClient` over the audience of the hint.
unfoldable pub audience_client : Store → String → List String → Result Client
audience_client s uri [] = err err_bad_logout_redirect
audience_client s uri (a ∷ aud) =
    let rest = audience_client s uri aud in
    elim (get_client s a) [
      | err _ ↦ rest
      | ok c ↦ if redirect_uri_exact uri c.post_logout_redirect_uris then ok c else rest
    ]

-- The client id that a request names, or that is the hint's whole audience.
unfoldable pub logout_client_id : EndSessionReq → Option IdTokenHint → String
logout_client_id req hint =
    if not (req.client_id == "")
    then req.client_id
    else elim hint [ none ↦ "" | some h ↦ elim h.audience [ a ∷ [] ↦ a | _ ↦ "" ] ]

unfoldable pub logout_client : Store → EndSessionReq → Option IdTokenHint → Result Client
unfolding audience_client logout_client_id
logout_client s req hint =
    let id = logout_client_id req hint in
    if not (id == "")
    then elim (get_client s id) [ err _ ↦ err err_bad_logout_client | ok c ↦ ok c ]
    else if req.post_logout_redirect_uri == ""
    then ok no_client
    else elim hint [
      | none ↦ ok no_client
      | some h ↦ audience_client s req.post_logout_redirect_uri h.audience
    ]

module _ (p : Platform) (cfg : Config) where
  unfoldable pub parse_hint : String → Option IdTokenHint
  parse_hint compact = if compact == "" then none else elim (parse_id_token_hint p compact) [
    | err _ ↦ none
    | ok hint ↦ if not (hint.issuer == cfg.issuer) || hint.subject == "" then none else some hint
  ]
