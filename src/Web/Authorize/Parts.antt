-- ===== src/Web/Authorize/Parts.antt =====
-- What each part of the authorization endpoint answers (`handleAuthorize` and `oauthFail` of
-- apps/server/internal/web/authorize.go).
use Prim.Native.String
use pf_identity.Common.{
  ◌+◌, ℕ, String, ◌≡◌, ◌≢◌, refl, true, ◌⊎◌, inl, inr, eq_iff, arith, ◌==◌, if◌then◌else◌,
  Option-cases, Bool-cases,
}
use pf_identity.Config.{Config}
use pf_identity.Domain.{ok, err, Error, Client, Result-cases}
use pf_identity.OAuth.Redirect.{parse_redirect_uri, redirect_uri_exact}
use pf_identity.Platform.{Platform, Url}
use pf_identity.Store.Clients.{get_client}
use pf_identity.Store.Codes.{put_code}
use pf_identity.Store.Sessions.{add_session_client}
use pf_identity.Web.Authorize.{
  check_request, check_client, ask_consent, issue_code_redirect, oauth_fail, fail_target,
}
use pf_identity.Web.Csrf.{issue_csrf}
use pf_identity.Web.Http.{
  Request, Response, Page, empty_page, http_error, redirect, page, Flow, next, stop,
}
use pf_identity.World.{World, PendingAuth, random_token, bytes}

-- The response of a step that was the last one.
abbrev pub said : World × Flow Response → Response
said (w, next x) = x
said (w, stop x) = x

module _ (p : Platform) (cfg : Config) (r : Request) where
  abbrev pub Refused : Response → Type 0
  Refused x = (status : ℕ) × (text : String) × (x ≡ http_error status text)

  -- Sent to the redirect URI of the request, in which the query alone is changed.
  abbrev pub SentBack : Response → Type 0
  SentBack x =
      (u : Url) × (p.parse_url (r.query "redirect_uri") ≡ ok u)
      × ((q : String) × (x ≡ redirect 302 (p.url_string (record u { raw_query = q }))))

  -- The client of the request is stored, and the redirect URI is one of its own.
  abbrev pub Registered : World → Type 0
  Registered w =
      (c : Client) × (get_client w.store (r.query "client_id") ≡ ok c)
      × (redirect_uri_exact (r.query "redirect_uri") c.redirect_uris ≡ true)

  abbrev pub ToLogin : Response → Type 0
  ToLogin x = x ≡ redirect 303 (String.◌++◌ "/login?continue=" (p.query_escape r.request_uri))

  -- What the first checks of a request find wrong with it, and the error that is sent.
  abbrev pub IsFaulty : String → String → Type 0
  IsFaulty code desc =
      ((r.query "response_type" ≢ "code")
        × (code ≡ "unsupported_response_type")
        × (desc ≡ "only response_type=code is supported"))
      ⊎ ((r.query "response_type" ≡ "code")
          × ((r.query "code_challenge_method" ≢ "S256") ⊎ (r.query "code_challenge" ≡ ""))
          × (code ≡ "invalid_request")
          × (desc ≡ "PKCE S256 is required"))

  -- The redirect that tells an error, whatever client asks.
  abbrev pub Told : String → String → Response → Type 0
  Told code desc x =
      (r.query "redirect_uri" ≢ "")
      × ((u : Url) × (p.parse_url (r.query "redirect_uri") ≡ ok u)
          × (x
              ≡ redirect 302 (
                  p.url_string (record u {
                    raw_query =
                        let q =
                          p.set_query (p.set_query u.raw_query "error" code) "error_description"
                            desc in
                        if r.query "state" == ""
                        then q
                        else p.set_query q "state" (r.query "state");
                  }))))

  -- The plain error that tells it where there is nowhere to send it.
  abbrev pub Untold : Response → Type 0
  Untold x =
      ((r.query "redirect_uri" ≡ "")
        ⊎ ((e : Error) × (p.parse_url (r.query "redirect_uri") ≡ err e)))
      × Refused x

  pub oauth_fail-Told :
      (code desc : String)
      → Told code desc (oauth_fail p (r.query "redirect_uri") (r.query "state") code desc)
        ⊎ Untold (oauth_fail p (r.query "redirect_uri") (r.query "state") code desc)
  unfolding oauth_fail fail_target
  oauth_fail-Told code desc = elim (Bool-cases (r.query "redirect_uri" == "")) [
    | inl missing ↦ inr (
      inl ((eq_iff (r.query "redirect_uri") "").0 missing),
      (400, String.◌++◌ code (String.◌++◌ ": " desc), ground arith),
    )
    | inr given ↦ elim (Result-cases (p.parse_url (r.query "redirect_uri"))) [
      | inr (e, malformed) ↦ inr (inr (e, malformed), (400, code, ground arith))
      | inl (u, parsed) ↦
          inl (
            (λ blank. ground (arith, eq_iff (r.query "redirect_uri") "")),
            (u, parsed, ground arith),
          )
    ]
  ]

  pub oauth_fail-SentBack :
      (code desc : String)
      → Refused (oauth_fail p (r.query "redirect_uri") (r.query "state") code desc)
        ⊎ SentBack (oauth_fail p (r.query "redirect_uri") (r.query "state") code desc)
  oauth_fail-SentBack code desc = elim (oauth_fail-Told code desc) [
    | inr (_, refused) ↦ inl refused
    | inl (given, (u, parsed, there)) ↦ inr (u, parsed, (_, there))
  ]

  pub issue_code_redirect-SentBack :
      (user_id : String) (q : PendingAuth) (w : World)
      → q.redirect_uri ≡ r.query "redirect_uri"
      → Refused (said (issue_code_redirect p cfg r user_id q w))
        ⊎ SentBack (said (issue_code_redirect p cfg r user_id q w))
  unfolding issue_code_redirect random_token bytes put_code add_session_client
  issue_code_redirect-SentBack user_id q w same = elim (Option-cases (p.rand_read w.reads 32)) [
    | inl dry ↦ inl (500, "internal", ground arith)
    | inr (bs, drawn) ↦ elim (Result-cases (p.parse_url q.redirect_uri)) [
      | inl (u, parsed) ↦
          let coded = p.set_query u.raw_query "code" (p.raw_url_encode bs) in
          let query = if q.state == "" then coded else p.set_query coded "state" q.state in
          inr (u, ground arith, (query, ground arith))
      | inr (x, malformed) ↦ inl (500, "internal", ground arith)
    ]
  ]

  pub ask_consent-page :
      (client : Client) (q : PendingAuth) (w : World)
      → Refused (said (ask_consent p cfg client q w))
        ⊎ ((pg : Page) × (said (ask_consent p cfg client q w) ≡ page 200 "consent" pg))
  unfolding ask_consent issue_csrf random_token bytes
  ask_consent-page client q w = elim (Option-cases (p.rand_read w.reads 32)) [
    | inl dry ↦ inl (500, "internal", ground arith)
    | inr (b, drawn) ↦ elim (Option-cases (p.rand_read (w.reads + 1) 32)) [
      | inl dry ↦ inl (500, "csrf", ground arith)
      | inr (b', drawn') ↦
          let pg = record empty_page {
            csrf = p.raw_url_encode b';
            client_name = client.name;
            scopes = q.scopes;
            request_id = p.raw_url_encode b;
          } in
          inr (pg, ground arith)
    ]
  ]

  pub check_client-Refused :
      (w : World) (x : Response) → check_client p cfg r w ≡ (w, stop x) → Refused x
  unfolding check_client
  check_client-Refused w x e = elim (Result-cases (get_client w.store (r.query "client_id"))) [
    | inr (y, unknown) ↦ (400, "unknown client", ground arith)
    | inl (c, known) ↦ (
      400,
      "invalid redirect_uri",
      elim (Result-cases (parse_redirect_uri p (r.query "redirect_uri"))) [
        | inr (y, malformed) ↦ ground arith
        | inl (u, parsed) ↦ ground arith
      ],
    )
  ]

  -- The first checks find nothing wrong.
  abbrev pub IsSound : Type 0
  IsSound =
      (r.query "response_type" ≡ "code")
      × (r.query "code_challenge_method" ≡ "S256")
      × (r.query "code_challenge" ≢ "")

  pub check_request-cases :
      (w : World)
      → ((code desc : String) × IsFaulty code desc
          × (check_request p cfg r w
              ≡ (w, stop (oauth_fail p (r.query "redirect_uri") (r.query "state") code desc))))
        ⊎ (IsSound × (check_request p cfg r w ≡ (w, next tt)))
  unfolding check_request
  check_request-cases w =
      let kind = eq_iff (r.query "response_type") "code" in
      let method = eq_iff (r.query "code_challenge_method") "S256" in
      let challenge = eq_iff (r.query "code_challenge") "" in
      elim (Bool-cases (r.query "response_type" == "code")) [
        | inr other ↦ inl (
          "unsupported_response_type",
          "only response_type=code is supported",
          inl ((λ e. ground (arith, kind)), refl, refl),
          ground arith,
        )
        | inl code ↦ elim (Bool-cases (r.query "code_challenge_method" == "S256")) [
          | inr other ↦ inl (
            "invalid_request",
            "PKCE S256 is required",
            inr (kind.0 code, inl (λ e. ground (arith, method)), refl, refl),
            ground arith,
          )
          | inl s256 ↦ elim (Bool-cases (r.query "code_challenge" == "")) [
            | inl blank ↦ inl (
              "invalid_request",
              "PKCE S256 is required",
              inr (kind.0 code, inr (challenge.0 blank), refl, refl),
              ground arith,
            )
            | inr given ↦
                inr ((kind.0 code, method.0 s256, λ e. ground (arith, challenge)), ground arith)
          ]
        ]
      ]
