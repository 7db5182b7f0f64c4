-- ===== src/Web/Account.antt =====
-- The forms for registration, login and logout, and the home page:
-- apps/server/internal/web/account.go.
pub mod Entry
use Prim.Native.String
use pf_identity.Account.{RegisterInput, register, authenticate}
use pf_identity.Common.{
  ℕ, ◌&&◌, String, Bool, true, false, not, ◌||◌, Option, none, some, ◌==◌, if◌then◌else◌,
}
use pf_identity.Common.Text.{trim_space, contains_char}
use pf_identity.Config.{Config}
use pf_identity.Domain.{Result, ok, err, Error, conflict, User, audit_login_fail}
use pf_identity.Platform.{Platform}
use pf_identity.RateLimit.{limited, failure, success}
use pf_identity.Session.{start}
use pf_identity.Web.Csrf.{issue_csrf, check_csrf, set_session_cookie}
use pf_identity.Web.Current.{current_user}
use pf_identity.Web.Http.{
  Request, Response, http_error, redirect, page, empty_page, H, Handler, pure, answer, or_answer,
  attempt, running, modify, refuse, get, audit, request_ip, answers, ◌>>=◌, ◌>>◌,
}
use pf_identity.World.{World}

-- Whether the form is read and carries the token of the cookie.
abbrev pub genuine : Request → Bool
genuine r = r.form_parses && check_csrf r

module _ (p : Platform) where
  unfoldable pub safe_continue : String → String
  safe_continue raw = if raw == "" then "" else elim (p.parse_url raw) [
    | err _ ↦ ""
    | ok u ↦
        if not (u.scheme == "") || not (u.host == "")
        then ""
        else if not (u.path == "/authorize")
        then ""
        else if contains_char raw 92
        then ""
        else p.url_string u
  ]

  unfoldable pub login_key : Request → String → String
  login_key r email =
      String.◌++◌ (request_ip p r) (String.◌++◌ "\n" (p.to_lower (trim_space email)))

  module _ (cfg : Config) where
    unfoldable pub fail_form : Request → String → String → ℕ → H Response
    unfolding safe_continue
    fail_form r view message status = do
      tok ← or_answer (issue_csrf p cfg) (http_error 500 "csrf")
      pure (
          page status view (record empty_page {
            csrf = tok;
            error = message;
            continue_to = safe_continue (r.form "continue");
          }))

    unfoldable pub start_session_and_redirect : String → String → H Response
    start_session_and_redirect user_id cont = do
      row ← or_answer (start p cfg.session_ttl user_id) (http_error 500 "session")
      set_session_cookie row.0 row.1 cfg.cookie_secure
      pure (redirect 303 (if cont == "" then "/" else cont))

    -- `handleRegisterForm` and `handleLoginForm`: an empty form.
    unfoldable pub empty_form : Request → String → H Response
    unfolding safe_continue
    empty_form r view = do
      tok ← or_answer (issue_csrf p cfg) (http_error 500 "csrf")
      pure (
          page 200 view
            (record empty_page { csrf = tok; continue_to = safe_continue (r.query "continue") }))

    unfoldable pub handle_register_form : Request → Handler
    unfolding empty_form
    handle_register_form r = answers (empty_form r "register")

    unfoldable pub handle_login_form : Request → Handler
    unfolding empty_form
    handle_login_form r = answers (empty_form r "login")

    unfoldable pub register_message : Error → String
    register_message conflict = "このメールは既に使われています。"
    register_message _ = "登録できませんでした。"

    unfoldable pub register_user : Request → H Response
    unfolding fail_form register_message safe_continue
    register_user r = if not (genuine r) then fail_form r "register" "フォームをやり直してください。" 400 else do
      u ← attempt (
          register p
            (record { email = r.form "email"; password = r.form "password"; name = r.form "name" }))
      elim u [
        | err e ↦ fail_form r "register" (register_message e) 400
        | ok user ↦ start_session_and_redirect user.id (safe_continue (r.form "continue"))
      ]

    unfoldable pub handle_register : Request → Handler
    handle_register r = answers (register_user r)

    -- Ask the limiter, which forgets the failures that no longer count.
    abbrev pub ask_limiter : String → H Bool
    ask_limiter key =
        running λ w. let (l, b) = limited w.logins w.now key in (record w { logins = l }, b)

    -- What follows a failed login.
    unfoldable pub login_failed : Request → H Response
    unfolding fail_form login_key
    login_failed r = do
      modify λ w. record w { logins = failure w.logins w.now (login_key r (r.form "email")) }
      audit p r audit_login_fail "" "" (p.to_lower (trim_space (r.form "email")))
      fail_form r "login" "メールまたはパスワードが違います。" 400

    -- What follows a successful one.
    unfoldable pub login_succeeded : Request → User → H Response
    unfolding start_session_and_redirect login_key safe_continue
    login_succeeded r user = do
      modify λ w. record w { logins = success w.logins (login_key r (r.form "email")) }
      start_session_and_redirect user.id (safe_continue (r.form "continue"))

    unfoldable pub login : Request → H Response
    unfolding fail_form login_key
    login r = if not (genuine r) then fail_form r "login" "フォームをやり直してください。" 400 else do
      blocked ← ask_limiter (login_key r (r.form "email"))
      if blocked then fail_form r "login" "試行が多すぎます。しばらく待ってください。" 429 else do
        u ← attempt (authenticate p (r.form "email") (r.form "password"))
        elim u [ err _ ↦ login_failed r | ok user ↦ login_succeeded r user ]

    unfoldable pub handle_login : Request → Handler
    handle_login r = answers (login r)
