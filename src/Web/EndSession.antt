-- ===== src/Web/EndSession.antt =====
-- Logout: the handlers of apps/server/internal/web/end_session.go, with `handleLogout` and
-- `handleHome` of account.go.
pub mod Checked
pub mod Heard
pub mod Target
pub mod Told
use pf_identity.Common.{
  String, Bool, true, false, not, ◌&&◌, ◌||◌, List, [], ◌∷◌, ◌++◌, Option, none, some, ◌==◌,
  if◌then◌else◌, member,
}
use pf_identity.Config.{Config}
use pf_identity.Domain.{Result, ok, err, Error, other, invalid, error_text, Client, User, Duration}
use pf_identity.OAuth.Redirect.{parse_redirect_uri, redirect_uri_exact}
use pf_identity.Oidc.{IdTokenHint, parse_id_token_hint, sign_logout_token}
use pf_identity.Platform.{Platform, Url}
use pf_identity.Session.{cookie_name, lookup_session, end}
use pf_identity.Store.{Store}
use pf_identity.Store.Clients.{get_client}
use pf_identity.Store.Sessions.{list_session_clients}
use pf_identity.Web.Csrf.{issue_csrf, check_csrf, clear_cookie}
use pf_identity.Web.Current.{current_user, current_sid}
use pf_identity.Web.Http.{
  Request, Response, http_error, redirect, page, empty_page, H, Handler, pure, answer, or_answer,
  or_refusal, attempt, running, refuse, get, answers, modify, next, stop, ◌>>=◌, ◌>>◌,
}
use pf_identity.World.{World, ask, random_token}
use pf_identity.Web.Logout.{
  EndSessionReq, empty_req, parse_end_session, contains_audience, logout_client, parse_hint,
}
use pf_identity.Web.Notices.{front_channel_iframes, notify_back_channel}

module _ (p : Platform) (cfg : Config) where
  -- The session of the cookie is ended, after a lookup for its sid, which no caller reads.
  unfoldable pub end_browser_session : Request → World → World
  unfolding clear_cookie
  end_browser_session r w =
      let ended : World = elim (r.cookie cookie_name) [
        | none ↦ w
        | some value ↦ (end p value (lookup_session p value w).0).0
      ] in
      (clear_cookie cookie_name cfg.cookie_secure ended).0

  -- Where the browser goes on to after the logout.
  unfoldable pub after_logout : EndSessionReq → String → Result String
  after_logout req default_next =
      if req.post_logout_redirect_uri == ""
      then ok default_next
      else elim (p.parse_url req.post_logout_redirect_uri) [
        | err e ↦ err e
        | ok u ↦ ok (
            p.url_string (record u {
              raw_query =
                  if req.state == ""
                  then p.encode_query u.raw_query
                  else p.set_query u.raw_query "state" req.state;
            }))
      ]

  -- The answer to a logout: the frames that tell the clients, a redirect, or a page.
  unfoldable pub logout_answer : List String → String → Response
  logout_answer [] onward =
      if onward == "" then page 200 "logged_out" empty_page else redirect 302 onward
  logout_answer (f ∷ fs) onward =
      page 200 "front_channel" (record empty_page { iframes = f ∷ fs; continue_url = onward })

  -- The id of the signed-in user, "" where nobody is signed in.
  abbrev pub subject_of : Option User → String
  subject_of none = ""
  subject_of (some u) = u.id

  unfoldable pub finish_logout : Request → EndSessionReq → String → H Response
  unfolding notify_back_channel front_channel_iframes end_browser_session after_logout logout_answer
  finish_logout r req default_next = do
    sid ← running (current_sid p r)
    user ← running (current_user p r)
    modify (notify_back_channel p cfg sid (subject_of user))
    iframes ← get λ w. front_channel_iframes p cfg w.store sid
    modify (end_browser_session r)
    onward ←
        or_answer (λ w. (w, after_logout req default_next))
          (http_error 400 "post_logout_redirect_uri is not registered")
    pure (logout_answer iframes onward)

  unfoldable pub render_end_session_confirm : EndSessionReq → H Response
  render_end_session_confirm req = do
    tok ← or_answer (issue_csrf p cfg) (http_error 500 "csrf")
    pure (
        page 200 "end_session" (record empty_page {
          csrf = tok;
          id_token_hint = req.id_token_hint;
          post_logout_redirect_uri = req.post_logout_redirect_uri;
          state = req.state;
          client_id = req.client_id;
        }))

  -- `hintMatches`: the hint is this user's.
  abbrev pub hint_matches : Option IdTokenHint → Option User → Bool
  hint_matches (some h) (some u) = h.issuer == cfg.issuer && h.subject == u.id
  hint_matches _ _ = false

  -- Whether the client id that is named is not in the hint's audience.
  abbrev pub foreign_hint : EndSessionReq → Option IdTokenHint → Bool
  foreign_hint req none = false
  foreign_hint req (some h) =
      not (req.client_id == "") && not (contains_audience h.audience req.client_id)

  abbrev pub is_signed_in : Option User → Bool
  is_signed_in none = false
  is_signed_in (some u) = true

  -- `if req.PostLogoutRedirectURI != "" { if _, err := oauth.ParseRedirectURI(…) … }`
  unfoldable pub check_logout_uri : EndSessionReq → H (Unit {0})
  check_logout_uri req w =
      if req.post_logout_redirect_uri == ""
      then (w, next tt)
      else elim (parse_redirect_uri p req.post_logout_redirect_uri) [
        | ok _ ↦ (w, next tt)
        | err _ ↦ (
          w,
          stop (
              http_error 400
                "post_logout_redirect_uri must be an absolute http(s) URL without a fragment"),
        )
      ]

  -- The checks that come before the logout, which give the client.
  unfoldable pub check_logout : EndSessionReq → Option IdTokenHint → H Client
  unfolding check_logout_uri
  check_logout req hint = do
    check_logout_uri req
    client ← or_refusal (ask λ s. logout_client s req hint) (λ e. http_error 400 (error_text e))
    refuse
        (not (req.post_logout_redirect_uri == "")
          && (client.id == ""
              || not (
                  redirect_uri_exact req.post_logout_redirect_uri
                    client.post_logout_redirect_uris)))
        (http_error 400 "post_logout_redirect_uri is not registered")
    pure client

  -- Whether the request is confirmed by the form of this server.
  abbrev pub confirmed : Request → EndSessionReq → Bool
  confirmed r req = req.confirm && r.method == "POST" && check_csrf r

  unfoldable pub end_session : Request → H Response
  unfolding check_logout parse_hint
  end_session r = do
    refuse (r.method == "POST" && not r.form_parses) (http_error 400 "invalid form")
    let req = parse_end_session r
    let hint = parse_hint p cfg req.id_token_hint
    client ← check_logout req hint
    user ← running (current_user p r)
    refuse (foreign_hint req hint)
        (http_error 400 "client_id does not match id_token_hint audience")
    if is_signed_in user && not (hint_matches hint user) && not (confirmed r req)
        then render_end_session_confirm req
        else finish_logout r req ""

  unfoldable pub handle_end_session : Request → Handler
  handle_end_session r = answers (end_session r)

  unfoldable pub handle_logout : Request → Handler
  handle_logout r = answers (do
    refuse (not r.form_parses || not (check_csrf r)) (http_error 400 "csrf")
    finish_logout r empty_req "/login")

  unfoldable pub handle_home : Request → Handler
  handle_home r = answers (do
    refuse (not (r.url_path == "/")) (http_error 404 "404 page not found")
    user ← running (current_user p r)
    u ←
        or_answer (λ w. (w, elim user [ none ↦ err invalid | some u ↦ ok u ]))
          (redirect 303 "/login")
    tok ← or_answer (issue_csrf p cfg) (http_error 500 "csrf")
    pure (page 200 "home" (record empty_page { csrf = tok; name = u.name; email = u.email })))
