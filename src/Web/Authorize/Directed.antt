-- ===== src/Web/Authorize/Directed.antt =====
-- Where the authorization endpoint sends the browser (`handleAuthorize` of
-- apps/server/internal/web/authorize.go).
use pf_identity.Common.{
  String, ◌≡◌, refl, sym, subst, true, ◌⊎◌, inl, inr, arith, Option-cases, Bool-cases,
}
use pf_identity.Config.{Config}
use pf_identity.Domain.{error_text, Result-cases}
use pf_identity.OAuth.Scope.{normalize_scopes}
use pf_identity.Platform.{Platform}
use pf_identity.Web.Authorize.{
  authorize, check_request, check_client, check_scopes, ask_consent, issue_code_redirect,
  has_consent, handle_authorize, pending_of, oauth_fail,
}
use pf_identity.Web.Authorize.Grants.{check_client-next, check_client-world}
use pf_identity.Web.Current.{current_user}
use pf_identity.Web.Http.{Request, Response, Page, page, next, Flow-cases}
use pf_identity.World.{World}
use pf_identity.Web.Authorize.Parts.{
  said, oauth_fail-Told, oauth_fail-SentBack, issue_code_redirect-SentBack, ask_consent-page,
  check_client-Refused, check_request-cases, Refused, SentBack, Registered, ToLogin, IsFaulty, Told,
  Untold, IsSound,
}

module _ (p : Platform) (cfg : Config) (r : Request) where
  -- What a request is answered with that passes the first checks.
  abbrev pub Checked : World → Response → Type 0
  Checked w x =
      Refused p cfg r x
      ⊎ (ToLogin p cfg r x
          ⊎ (Registered p cfg r w
              × (((pg : Page) × (x ≡ page 200 "consent" pg)) ⊎ SentBack p cfg r x)))

  handle_authorize-Checked :
      (w : World)
      → check_request p cfg r w ≡ (w, next tt)
      → Checked w (handle_authorize p cfg r w).1
  unfolding handle_authorize authorize check_scopes
  handle_authorize-Checked w sound =
      let answer = (handle_authorize p cfg r w).1 in
      let there = check_client-world p cfg r w in
      elim (Flow-cases (check_client p cfg r w)) [
        | inr (x, refused) ↦
            let (status, text, what) = check_client-Refused p cfg r w x (ground arith) in
            inl (status, text, ground arith)
        | inl (client, found) ↦
            let own : Registered p cfg r w =
              (let (known, own) = check_client-next p cfg r w w client (ground arith) in
                (client, known, own)) in
            elim (Result-cases (normalize_scopes p.quoted (r.query "scope") true)) [
              | inr (x, bad) ↦
                  let told : answer
                      ≡ oauth_fail p (r.query "redirect_uri") (r.query "state") "invalid_scope"
                          (error_text x) =
                    ground arith in
                  subst (Checked w) (sym told)
                    (elim (oauth_fail-SentBack p cfg r "invalid_scope" (error_text x)) [
                      | inl refused ↦ inl refused
                      | inr back ↦ inr (inr (own, inr back))
                    ])
              | inl (scopes, good) ↦ elim (Option-cases (current_user p r w).1) [
                | inl missing ↦ inr (inl (ground arith))
                | inr (user, signed) ↦
                    let v = (current_user p r w).0 in
                    let q = pending_of cfg r client scopes v in
                    elim (Bool-cases (has_consent v.store user.id client.id scopes)) [
                      | inl granted ↦
                          let step = issue_code_redirect p cfg r user.id q v in
                          let same : answer ≡ said step = elim (Flow-cases step) [
                            | inl (x, done) ↦ ground arith
                            | inr (x, failed) ↦ ground arith
                          ] in
                          subst (Checked w) (sym same)
                            (elim (issue_code_redirect-SentBack p cfg r user.id q v refl) [
                              | inl refused ↦ inl refused
                              | inr back ↦ inr (inr (own, inr back))
                            ])
                      | inr asked ↦
                          let step = ask_consent p cfg client q v in
                          let same : answer ≡ said step = elim (Flow-cases step) [
                            | inl (x, done) ↦ ground arith
                            | inr (x, failed) ↦ ground arith
                          ] in
                          subst (Checked w) (sym same) (elim (ask_consent-page p cfg r client q v) [
                            | inl refused ↦ inl refused
                            | inr shown ↦ inr (inr (own, inl shown))
                          ])
                    ]
              ]
            ]
      ]

  -- Where the authorization endpoint sends a browser. A request with another response type or
  -- without a PKCE challenge by "S256" changes nothing, and is sent to its redirect URI with the
  -- error, whatever client asks and whatever it has registered: a plain error answers it only if
  -- that URI is empty or `url.Parse` refuses it. Any other request is answered with a plain error,
  -- with a redirect to the login page, or, only if the redirect URI is one of the stored client
  -- that it names, with the page for consent or a redirect to that URI, in which the query alone is
  -- changed.
  pub handle_authorize-Directed :
      (w : World)
      → ((code desc : String) × IsFaulty p cfg r code desc
          × ((handle_authorize p cfg r w).0 ≡ w)
          × (Told p cfg r code desc (handle_authorize p cfg r w).1
              ⊎ Untold p cfg r (handle_authorize p cfg r w).1))
        ⊎ (IsSound p cfg r × Checked w (handle_authorize p cfg r w).1)
  unfolding handle_authorize authorize
  handle_authorize-Directed w = elim (check_request-cases p cfg r w) [
    | inr (sound, passed) ↦ inr (sound, handle_authorize-Checked w passed)
    | inl (code, desc, faulty, failed) ↦
        let told : (handle_authorize p cfg r w).1
            ≡ oauth_fail p (r.query "redirect_uri") (r.query "state") code desc =
          ground arith in
        inl (
          code,
          desc,
          faulty,
          ground arith,
          subst (λ x. Told p cfg r code desc x ⊎ Untold p cfg r x) (sym told)
              (oauth_fail-Told p cfg r code desc),
        )
  ]
