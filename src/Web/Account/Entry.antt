-- ===== src/Web/Account/Entry.antt =====
-- Who gets in by the login form, and who is kept out.
use pf_identity.Account.{authenticate}
use pf_identity.Common.{
  ℕ, String, ◌≡◌, ◌≢◌, ap, true, false, inl, inr, ◌==◌, arith, if◌then◌else◌, Option-cases,
  Bool-cases,
}
use pf_identity.Common.Text.{trim_space}
use pf_identity.Config.{Config}
use pf_identity.Domain.{ok, User, Result-cases, Time}
use pf_identity.Platform.{Platform}
use pf_identity.RateLimit.{limited, failure, success}
use pf_identity.Session.{start}
use pf_identity.Web.Account.{
  handle_login, login, login_failed, login_succeeded, fail_form, start_session_and_redirect,
  login_key, genuine, safe_continue,
}
use pf_identity.Web.Csrf.{issue_csrf, set_session_cookie}
use pf_identity.Web.Http.{Request, redirect, answers, audit}
use pf_identity.World.{World, random_token, bytes}

module _ (p : Platform) (cfg : Config) where
  -- A form that is shown again leaves store and limiter alone, and does not redirect.
  fail_form-answer :
      (r : Request) (view message : String) (status : ℕ) (w : World) (code : ℕ) (url : String)
      → ((answers (fail_form p cfg r view message status) w).0.store ≡ w.store)
        × ((answers (fail_form p cfg r view message status) w).1 ≢ redirect code url)
  unfolding fail_form issue_csrf random_token bytes
  fail_form-answer r view message status w code url = elim (Option-cases (p.rand_read w.reads 32)) [
    | inl failed ↦ (ground arith, λ e. ground arith)
    | inr (b, drawn) ↦ (ground arith, λ e. ground arith)
  ]

  -- A key that the limiter blocks is refused before the password is looked at: whatever the
  -- request holds, the store stays as it is and the answer is no redirect.
  pub handle_login_blocked :
      (r : Request) (w : World) (code : ℕ) (url : String)
      → (limited w.logins w.now (login_key p r (r.form "email"))).1 ≡ true
      → ((handle_login p cfg r w).0.store ≡ w.store)
        × ((handle_login p cfg r w).1 ≢ redirect code url)
  unfolding handle_login login
  handle_login_blocked r w code url blocked =
      let l = (limited w.logins w.now (login_key p r (r.form "email"))).0 in
      elim (Bool-cases (genuine r)) [
        | inr forged ↦
            let (kept, stays) = fail_form-answer r "login" "フォームをやり直してください。" 400 w code url in
            (ground arith, λ e. stays (ground arith))
        | inl given ↦
            let (kept, stays) =
              fail_form-answer r "login" "試行が多すぎます。しばらく待ってください。" 429 (record w { logins = l }) code
                url in
            (ground arith, λ e. stays (ground arith))
      ]

  -- What has been established when the login form lets somebody in.
  pub record Entered (r : Request) (w w' : World) (url : String) : Type 0 where
    pub user : User
    pub plain : String
    pub until : Time
    pub began : World
    pub form : genuine r ≡ true
    pub open_key : (limited w.logins w.now (login_key p r (r.form "email"))).1 ≡ false
    pub authenticated :
        (authenticate p
          (r.form "email")
          (r.form "password")
          (record w { logins = (limited w.logins w.now (login_key p r (r.form "email"))).0 })).1
        ≡ ok user
    -- the session that was started, in which world, and the cookie that carries it
    pub started : (start p cfg.session_ttl user.id began).1 ≡ ok (plain, until)
    pub sessions : w'.store ≡ (start p cfg.session_ttl user.id began).0.store
    pub goes_to : url ≡ (
        if safe_continue p (r.form "continue") == ""
        then "/"
        else safe_continue p (r.form "continue"))

  login_failed-answer :
      (r : Request) (w : World) (code : ℕ) (url : String)
      → (answers (login_failed p cfg r) w).1 ≢ redirect code url
  unfolding login_failed audit
  login_failed-answer r w code url e =
      let v =
        (audit p r "login_fail" "" "" (p.to_lower (trim_space (r.form "email")))
          (record w { logins = failure w.logins w.now (login_key p r (r.form "email")) })).0 in
      (fail_form-answer r "login" "メールまたはパスワードが違います。" 400 v code url).1 (ground arith)

  -- What a successful login leads to.
  login_succeeded-answer :
      (r : Request) (user : User) (w w' : World) (code : ℕ) (url : String)
      → answers (login_succeeded p cfg r user) w ≡ (w', redirect code url)
      → (plain : String) × (until : Time) × (began : World) × ((start p cfg.session_ttl user.id
            began).1
          ≡ ok (plain, until))
        × (w'.store ≡ (start p cfg.session_ttl user.id began).0.store)
        × (url ≡ (
            if safe_continue p (r.form "continue") == ""
            then "/"
            else safe_continue p (r.form "continue")))
  unfolding login_succeeded start_session_and_redirect set_session_cookie
  login_succeeded-answer r user w w' code url e =
      let began = record w { logins = success w.logins (login_key p r (r.form "email")) } in
      elim (Result-cases (start p cfg.session_ttl user.id began).1) [
        | inr (x, failed) ↦ absurd (ground arith)
        | inl ((plain, until), started) ↦ (plain, until, began, started, ground arith, ground arith)
      ]

  -- The login form redirects only where it carries the token of the cookie, the limiter lets the
  -- key pass and the password is right; the session that it starts then belongs to this account,
  -- and the redirect leads to "/" or to an address that `safe_continue` lets pass.
  pub handle_login-Entered :
      (r : Request) (w w' : World) (code : ℕ) (url : String)
      → handle_login p cfg r w ≡ (w', redirect code url)
      → Entered r w w' url
  unfolding handle_login login
  handle_login-Entered r w w' code url e =
      let l = (limited w.logins w.now (login_key p r (r.form "email"))).0 in
      let v = record w { logins = l } in
      let mail = r.form "email" in
      elim (Bool-cases (genuine r)) [
        | inr forged ↦
            absurd ((fail_form-answer r "login" "フォームをやり直してください。" 400 w code url).1 (ground arith))
        | inl given ↦
            elim (Bool-cases (limited w.logins w.now (login_key p r (r.form "email"))).1) [
              | inl blocked ↦
                  absurd ((handle_login_blocked r w code url blocked).1 (ap (λ z. z.1) e))
              | inr passes ↦ elim (Result-cases (authenticate p mail (r.form "password") v).1) [
                | inr (x, wrong) ↦ absurd (
                    login_failed-answer r (authenticate p mail (r.form "password") v).0 code url
                      (ground arith))
                | inl (user, right) ↦
                    let (plain, until, began, started, sessions, goes_to) =
                      login_succeeded-answer r user (authenticate p mail (r.form "password") v).0 w'
                        code url (ground arith) in
                    record {
                      user = user;
                      plain = plain;
                      until = until;
                      began = began;
                      form = given;
                      open_key = passes;
                      authenticated = right;
                      started = started;
                      sessions = sessions;
                      goes_to = goes_to;
                    }
              ]
            ]
      ]
