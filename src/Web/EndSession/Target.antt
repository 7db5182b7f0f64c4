-- ===== src/Web/EndSession/Target.antt =====
-- Where a logout leads, and what it ends (apps/server/internal/web/end_session.go).
use pf_identity.Common.{
  String, ◌≡◌, ◌≢◌, Bool, false, not, ◌&&◌, [], ◌∷◌, Option, some, inl, inr, arith, ◌==◌, eq_iff,
  Bool-cases, Option-cases, ℕ, if◌then◌else◌,
}
use pf_identity.Config.{Config}
use pf_identity.Domain.{ok, err, not_found, Client, User, Time, Result-cases}
use pf_identity.Oidc.{IdTokenHint}
use pf_identity.Platform.{Platform, Url}
use pf_identity.Session.{cookie_name, lookup, lookup_session}
use pf_identity.Session.Lifetime.{lookup-end}
use pf_identity.Web.Csrf.{clear_cookie, issue_csrf}
use pf_identity.Web.Current.{current_user, current_sid}
use pf_identity.Web.EndSession.{
  end_browser_session, after_logout, logout_answer, finish_logout, render_end_session_confirm,
  hint_matches, subject_of, is_signed_in, foreign_hint, check_logout, confirmed, end_session,
  handle_end_session,
}
use pf_identity.Web.Http.{Request, Response, redirect, http_error, next, stop, Flow-cases}
use pf_identity.Web.Logout.{EndSessionReq, parse_end_session, parse_hint}
use pf_identity.Web.Notices.{front_channel_iframes, notify_back_channel}
use pf_identity.World.{World, random_token, bytes}
use pf_identity.Web.EndSession.Checked.{
  IsRegistered, check_logout-IsRegistered, check_logout-refusal,
}

module _ (p : Platform) (cfg : Config) where
  -- The state once the clients are told.
  abbrev notified : Request → World → World
  notified r w =
      let (v, sid) = current_sid p r w in
      let (v', user) = current_user p r v in
      notify_back_channel p cfg sid (subject_of p cfg user) v'

  -- The state after a logout that was carried out, whatever it answers.
  finish_logout-world :
      (r : Request) (req : EndSessionReq) (next_url : String) (w : World)
      → (v : World) × ((finish_logout p cfg r req next_url w).0 ≡ end_browser_session p cfg r v)
  unfolding finish_logout
  finish_logout-world r req next_url w =
      let told = notified r w in
      elim (Result-cases (after_logout p cfg req next_url)) [
        | inl (t, onward) ↦ (told, ground arith)
        | inr (x, lost) ↦ (told, ground arith)
      ]

  -- What a logout answers with, where it goes on to a URL.
  finish_logout-target :
      (r : Request) (req : EndSessionReq) (w w' : World) (code : ℕ) (target : String)
      → finish_logout p cfg r req "" w ≡ (w', next (redirect code target))
      → (after_logout p cfg req "" ≡ ok target) × (target ≢ "") × (code ≡ 302)
  unfolding finish_logout logout_answer
  finish_logout-target r req w w' code target e =
      let told = notified r w in
      elim (Result-cases (after_logout p cfg req "")) [
        | inr (x, lost) ↦ absurd (ground arith)
        | inl (t, onward) ↦
            elim (front_channel_iframes p cfg told.store (current_sid p r w).1)
                as (λ fs.
                  logout_answer p cfg fs t ≡ redirect code target
                  → (after_logout p cfg req "" ≡ ok target) × (target ≢ "") × (code ≡ 302)) [
                    | [] ↦ λ a. elim (Bool-cases (t == "")) [
                      | inl blank ↦ absurd (ground arith)
                      | inr given ↦ (ground arith, (λ b. ground (arith, eq_iff t "")), ground arith)
                    ]
                    | f ∷ fs ↦ λ a. absurd (ground arith)
                  ]
              (ground arith)
      ]

  finish_logout-refusal :
      (r : Request) (req : EndSessionReq) (next_url : String) (w w' : World) (x : Response)
      → finish_logout p cfg r req next_url w ≡ (w', stop x)
      → (text : String) × (x ≡ http_error 400 text)
  unfolding finish_logout
  finish_logout-refusal r req next_url w w' x e =
      elim (Result-cases (after_logout p cfg req next_url)) [
        | inl (t, onward) ↦ absurd (ground arith)
        | inr (y, lost) ↦ ("post_logout_redirect_uri is not registered", ground arith)
      ]

  module _ (r : Request) (w : World) where
    abbrev asked : EndSessionReq
    asked = parse_end_session r

    abbrev hint : Option IdTokenHint
    hint = parse_hint p cfg asked.id_token_hint

    -- Whether the user is asked before the logout.
    abbrev asks_first : Option User → Bool
    asks_first user =
        is_signed_in p cfg user
        && not (hint_matches p cfg hint user)
        && not (confirmed p cfg r asked)

    -- A redirect is the answer of a logout that was carried out, after the checks.
    handle_end_session-finished :
        (w' : World) (code : ℕ) (target : String)
        → handle_end_session p cfg r w ≡ (w', redirect code target)
        → ((c : Client) × (check_logout p cfg asked hint w ≡ (w, next c)))
          × ((v : World) × (finish_logout p cfg r asked "" v ≡ (w', next (redirect code target))))
    unfolding handle_end_session end_session render_end_session_confirm
    handle_end_session-finished w' code target e =
        elim (Bool-cases (r.method == "POST" && not r.form_parses)) [
          | inl garbled ↦ absurd (ground arith)
          | inr read ↦ elim (Flow-cases (check_logout p cfg asked hint w)) [
            | inr (x, refused) ↦
                let (same, (text, what)) = check_logout-refusal p cfg asked hint w _ x refused in
                absurd (ground arith)
            | inl (c, passed) ↦
                let (same, _) = check_logout-IsRegistered p cfg asked hint w _ c passed in
                let v = (current_user p r w).0 in
                let user = (current_user p r w).1 in
                (
                  (c, ground arith),
                  (
                    v,
                    elim (Bool-cases (foreign_hint p cfg asked hint)) [
                      | inl foreign ↦ absurd (ground arith)
                      | inr own ↦ elim (Bool-cases (asks_first user)) [
                        | inl asking ↦ elim (Result-cases (issue_csrf p cfg v).1) [
                          | inl (tok, made) ↦ absurd (ground arith)
                          | inr (x, failed) ↦ absurd (ground arith)
                        ]
                        | inr going ↦ elim (Flow-cases (finish_logout p cfg r asked "" v)) [
                          | inl (a, answered) ↦ ground arith
                          | inr (x, lost) ↦
                              let (text, what) = finish_logout-refusal r asked "" v _ x lost in
                              absurd (ground arith)
                        ]
                      ]
                    ],
                  ),
                )
          ]
        ]

    -- A logout request redirects the browser only where a client may: with 302, to the URI of the
    -- request, which a stored client has registered. In the URL that the URI parses to, the query
    -- alone is changed: the state of the request is set in it if there is one, and without a state
    -- it is only encoded anew.
    pub handle_end_session-IsRegistered :
        (w' : World) (code : ℕ) (target : String)
        → handle_end_session p cfg r w ≡ (w', redirect code target)
        → IsRegistered p cfg w.store asked.post_logout_redirect_uri
          × (code ≡ 302)
          × ((u : Url) × (p.parse_url asked.post_logout_redirect_uri ≡ ok u)
              × (target
                  ≡ p.url_string (record u {
                    raw_query =
                        if asked.state == ""
                        then p.encode_query u.raw_query
                        else p.set_query u.raw_query "state" asked.state;
                  })))
    unfolding after_logout
    handle_end_session-IsRegistered w' code target e =
        let ((c, passed), (v, done)) = handle_end_session-finished w' code target e in
        let (onward, given, moved) = finish_logout-target r asked v w' code target done in
        elim (check_logout-IsRegistered p cfg asked hint w w c passed).1 [
          | inr registered ↦ elim (Bool-cases (asked.post_logout_redirect_uri == "")) [
            | inl staying ↦ absurd (ground arith)
            | inr going ↦ elim (Result-cases (p.parse_url asked.post_logout_redirect_uri)) [
              | inl (u, parsed) ↦ (registered, moved, (u, parsed, ground arith))
              | inr (x, bad) ↦ absurd (ground arith)
            ]
          ]
          | inl staying ↦ absurd (given (ground (arith, eq_iff asked.post_logout_redirect_uri "")))
        ]

    -- A user who is signed in is not logged out by a link: where the hint is not an ID token of
    -- that user and the request is not confirmed by a form of this server, the store stays as it
    -- was and no client is told.
    pub handle_end_session-asks :
        (u : User)
        → current_user p r w ≡ (w, some u)
        → hint_matches p cfg hint (some u) ≡ false
        → confirmed p cfg r asked ≡ false
        → ((handle_end_session p cfg r w).0.store ≡ w.store)
          × ((handle_end_session p cfg r w).0.posted ≡ w.posted)
    unfolding handle_end_session end_session render_end_session_confirm issue_csrf random_token
        bytes
    handle_end_session-asks u signed foreign unconfirmed =
        elim (Bool-cases (r.method == "POST" && not r.form_parses)) [
          | inl garbled ↦ ground arith
          | inr read ↦ elim (Flow-cases (check_logout p cfg asked hint w)) [
            | inr (x, refused) ↦
                ground (arith, (check_logout-refusal p cfg asked hint w _ x refused).0)
            | inl (c, passed) ↦
                let (same, _) = check_logout-IsRegistered p cfg asked hint w _ c passed in
                elim (Bool-cases (foreign_hint p cfg asked hint)) [
                  | inl stranger ↦ ground arith
                  | inr own ↦ elim (Option-cases (p.rand_read w.reads 32)) [
                    | inl dry ↦ ground arith
                    | inr (b, drawn) ↦ ground arith
                  ]
                ]
          ]
        ]

    -- A logout that is carried out ends the session: the cookie of the browser then gives access
    -- to nothing, at any time, and whatever the logout answers.
    pub finish_logout-ends :
        (req : EndSessionReq) (next_url value : String) (later : Time)
        → r.cookie cookie_name ≡ some value
        → (lookup p value (record (finish_logout p cfg r req next_url w).0 { now = later })).1
          ≡ err not_found
    unfolding end_browser_session clear_cookie lookup lookup_session
    finish_logout-ends req next_url value later held =
        let (v, ended) = finish_logout-world r req next_url w in
        let gone = lookup-end p value (lookup_session p value v).0 later in
        ground (arith, ended, gone.0)
