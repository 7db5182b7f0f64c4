-- ===== src/Web/Authorize.antt =====
-- The authorization endpoint and the consent form: apps/server/internal/web/authorize.go.
pub mod Frame
pub mod Parts
pub mod Directed
pub mod Grants
pub mod Answers
use Prim.Native.String
use pf_identity.Common.{
  ℕ, ◌+◌, ◌*◌, String, Bool, true, false, not, ◌||◌, List, [], ◌∷◌, Option, none, some, ◌==◌,
  if◌then◌else◌, ltb, find, store_at, remove,
}
use pf_identity.Common.Text.{join_spaced}
use pf_identity.Config.{Config}
use pf_identity.Domain.{Result, ok, err, Error, error_text, User, Client, audit_consent}
use pf_identity.OAuth.Pkce.{hash_token, challenge_s256}
use pf_identity.OAuth.Redirect.{parse_redirect_uri, redirect_uri_exact}
use pf_identity.OAuth.Scope.{normalize_scopes, contains}
use pf_identity.Platform.{Platform, Url}
use pf_identity.Store.{Store}
use pf_identity.Store.Clients.{get_client}
use pf_identity.Store.Codes.{put_code}
use pf_identity.Store.Consents.{get_consent, put_consent}
use pf_identity.Store.Sessions.{add_session_client}
use pf_identity.Web.Csrf.{issue_csrf, check_csrf}
use pf_identity.Web.Current.{current_user, current_sid}
use pf_identity.Web.Http.{
  Request, Response, http_error, redirect, page, empty_page, H, Handler, pure, answer, or_answer,
  attempt, running, modify, next, stop, refuse, get, audit, answers, ◌>>=◌, ◌>>◌,
}
use pf_identity.World.{World, PendingAuth, ask, call, random_token}

-- The loop of `hasConsent`.
unfoldable pub covers : List String → List String → Bool
covers granted [] = true
covers granted (scope ∷ want) =
    let rest = covers granted want in if not (contains granted scope) then false else rest

unfoldable pub has_consent : Store → String → String → List String → Bool
unfolding covers
has_consent s user_id client_id want = elim (get_consent s user_id client_id) [
  | err _ ↦ false
  | ok c ↦ covers c.scopes want
]

-- `pendingAuth` as a request makes it.
abbrev pub pending_of : Config → Request → Client → List String → World → PendingAuth
pending_of cfg r client scopes w = record {
  client_id = client.id;
  redirect_uri = r.query "redirect_uri";
  state = r.query "state";
  nonce = r.query "nonce";
  scopes = scopes;
  challenge = r.query "code_challenge";
  expires_at = w.now + cfg.code_ttl * 10;
}

module _ (p : Platform) where
  -- `if state != "" { q.Set("state", state) }`
  abbrev set_state : String → String → String
  set_state state query = if state == "" then query else p.set_query query "state" state

  -- Where an error is sent to.
  unfoldable pub fail_target : Url → String → String → String → String
  fail_target u state code desc = p.url_string (record u {
    raw_query =
        set_state state
          (p.set_query (p.set_query u.raw_query "error" code) "error_description" desc);
  })

  unfoldable pub oauth_fail : String → String → String → String → Response
  unfolding fail_target
  oauth_fail redirect_uri state code desc =
      if redirect_uri == ""
      then http_error 400 (String.◌++◌ code (String.◌++◌ ": " desc))
      else elim (p.parse_url redirect_uri) [
        | err _ ↦ http_error 400 code
        | ok u ↦ redirect 302 (fail_target u state code desc)
      ]

  module _ (cfg : Config) where
    unfoldable pub issue_code_redirect : Request → String → PendingAuth → H Response
    issue_code_redirect r user_id q = do
      plain ← or_answer (random_token p) (http_error 500 "internal")
      sid ← running (current_sid p r)
      w ← get λ w. w
      or_answer
          (call λ s. put_code s (record {
            hash = hash_token p plain;
            client_id = q.client_id;
            user_id = user_id;
            redirect_uri = q.redirect_uri;
            scopes = q.scopes;
            nonce = q.nonce;
            code_challenge = q.challenge;
            session_sid = sid;
            expires_at = w.now + cfg.code_ttl;
            used = false;
          }))
          (http_error 500 "internal")
      attempt (call λ s. add_session_client s sid q.client_id)
      u ← or_answer (λ w. (w, p.parse_url q.redirect_uri)) (http_error 500 "internal")
      pure (
          redirect 302 (
            p.url_string
              (record u { raw_query = set_state q.state (p.set_query u.raw_query "code" plain) })))

    -- The page that asks for consent, with a token for the request.
    unfoldable pub ask_consent : Client → PendingAuth → H Response
    ask_consent client q = do
      id ← or_answer (random_token p) (http_error 500 "internal")
      modify λ w. record w { pending = store_at w.pending id q }
      tok ← or_answer (issue_csrf p cfg) (http_error 500 "csrf")
      pure (
          page 200 "consent" (record empty_page {
            csrf = tok;
            client_name = client.name;
            scopes = q.scopes;
            request_id = id;
          }))

    -- The checks that `handleAuthorize` makes before the client is known.
    unfoldable pub check_request : Request → H (Unit {0})
    unfolding oauth_fail
    check_request r = do
      refuse (not (r.query "response_type" == "code")) (
          oauth_fail (r.query "redirect_uri") (r.query "state") "unsupported_response_type"
            "only response_type=code is supported")
      refuse
          (not (r.query "code_challenge_method" == challenge_s256)
            || r.query "code_challenge" == "")
          (oauth_fail (r.query "redirect_uri") (r.query "state") "invalid_request"
            "PKCE S256 is required")

    -- The client of the request, once its redirect URI is checked.
    unfoldable pub check_client : Request → H Client
    check_client r = do
      client ←
          or_answer (ask λ s. get_client s (r.query "client_id")) (http_error 400 "unknown client")
      u ←
          or_answer (λ w. (w, parse_redirect_uri p (r.query "redirect_uri")))
            (http_error 400 "invalid redirect_uri")
      refuse (not (redirect_uri_exact (r.query "redirect_uri") client.redirect_uris))
          (http_error 400 "invalid redirect_uri")
      pure client

    -- The scopes of the request, or the error that the client is sent.
    unfoldable pub check_scopes : Request → H (List String)
    unfolding oauth_fail
    check_scopes r w = elim (normalize_scopes p.quoted (r.query "scope") true) [
      | ok scopes ↦ pure scopes w
      | err e ↦
          answer
            (oauth_fail (r.query "redirect_uri") (r.query "state") "invalid_scope" (error_text e)) w
    ]

    -- The signed-in user, or a redirect.
    abbrev pub signed_in : Request → String → H User
    signed_in r url = do
      user ← running (current_user p r)
      elim user [ none ↦ answer (redirect 303 url) | some u ↦ pure u ]

    unfoldable pub authorize : Request → H Response
    unfolding check_request check_client check_scopes ask_consent
    authorize r = do
      check_request r
      client ← check_client r
      scopes ← check_scopes r
      user ← signed_in r (String.◌++◌ "/login?continue=" (p.query_escape r.request_uri))
      w ← get λ w. w
      let q = pending_of cfg r client scopes w
      if has_consent w.store user.id client.id scopes
          then issue_code_redirect r user.id q
          else ask_consent client q

    unfoldable pub handle_authorize : Request → Handler
    handle_authorize r = answers (authorize r)

    -- The pending request that the form names, which is removed.
    unfoldable pub take_pending : String → H PendingAuth
    take_pending id w = elim (find w.pending id) [
      | none ↦ (w, stop (http_error 400 "expired authorization request"))
      | some q ↦
          let w' = record w { pending = remove w.pending id } in
          if ltb w.now q.expires_at
          then (w', next q)
          else (w', stop (http_error 400 "expired authorization request"))
    ]

    unfoldable pub consent : Request → H Response
    unfolding take_pending oauth_fail
    consent r = do
      refuse (not r.form_parses || not (check_csrf r)) (http_error 400 "csrf")
      user ← signed_in r "/login"
      q ← take_pending (r.form "request_id")
      refuse (not (r.form "decision" == "allow"))
          (oauth_fail q.redirect_uri q.state "access_denied" "the user denied the request")
      attempt (
          call λ s.
            put_consent s
              (record { user_id = user.id; client_id = q.client_id; scopes = q.scopes }))
      audit p r audit_consent user.id q.client_id (join_spaced q.scopes)
      issue_code_redirect r user.id q

    unfoldable pub handle_consent : Request → Handler
    handle_consent r = answers (consent r)
