-- ===== src/Web/Authorize/Grants.antt =====
-- What the authorization endpoint has established when it issues a code.
use pf_identity.Common.{
  ◌+◌, String, ◌≡◌, ◌≢◌, true, false, List, none, some, inl, inr, eq_iff, arith, if◌then◌else◌,
  find, Option-cases, Bool-cases,
}
use pf_identity.Config.{Config}
use pf_identity.Domain.{ok, Client, AuthCode, User, Result-cases}
use pf_identity.OAuth.Redirect.{parse_redirect_uri, redirect_uri_exact}
use pf_identity.OAuth.Scope.{normalize_scopes}
use pf_identity.Platform.{Platform}
use pf_identity.Store.Clients.{get_client}
use pf_identity.Web.Authorize.{
  authorize, check_request, check_client, check_scopes, ask_consent, issue_code_redirect,
  has_consent, handle_authorize, pending_of,
}
use pf_identity.Web.Csrf.{issue_csrf}
use pf_identity.Web.Current.{current_user}
use pf_identity.Web.Http.{Request, Flow-cases, next}
use pf_identity.World.{World, PendingAuth, random_token, bytes}
use pf_identity.Web.Authorize.Frame.{
  has_consent-frame, current_user-frame, current_user-enabled, issue_code_redirect-IsNewFor,
}

module _ (p : Platform) (cfg : Config) where
  -- What has been established for a code that the authorization endpoint issues.
  pub record Granted (r : Request) (w : World) (c : AuthCode) : Type 0 where
    pub client : Client
    pub user : User
    pub known : get_client w.store (r.query "client_id") ≡ ok client
    pub own : c.client_id ≡ client.id
    pub registered : redirect_uri_exact c.redirect_uri client.redirect_uris ≡ true
    pub to_redirect : c.redirect_uri ≡ r.query "redirect_uri"
    pub challenged : c.code_challenge ≢ ""
    pub scoped : normalize_scopes p.quoted (r.query "scope") true ≡ ok c.scopes
    pub enabled : user.disabled ≡ false
    pub signed_in : (current_user p r w).1 ≡ some user
    pub owned : c.user_id ≡ user.id
    pub consented : has_consent w.store user.id client.id c.scopes ≡ true

  check_request-next :
      (r : Request) (w v : World)
      → check_request p cfg r w ≡ (v, next tt)
      → (r.query "code_challenge" ≢ "") × (v ≡ w)
  unfolding check_request
  check_request-next r w v e = (ground (arith, eq_iff (r.query "code_challenge") ""), ground arith)

  check_request-world : (r : Request) (w : World) → (check_request p cfg r w).0 ≡ w
  unfolding check_request
  check_request-world r w = ground arith

  pub check_client-world : (r : Request) (w : World) → (check_client p cfg r w).0 ≡ w
  unfolding check_client
  check_client-world r w = elim (Result-cases (get_client w.store (r.query "client_id"))) [
    | inr (x, unknown) ↦ ground arith
    | inl (c, known) ↦ elim (Result-cases (parse_redirect_uri p (r.query "redirect_uri"))) [
      | inr (x, malformed) ↦ ground arith
      | inl (u, parsed) ↦ ground arith
    ]
  ]

  pub check_client-next :
      (r : Request) (w v : World) (client : Client)
      → check_client p cfg r w ≡ (v, next client)
      → (get_client w.store (r.query "client_id") ≡ ok client)
        × (redirect_uri_exact (r.query "redirect_uri") client.redirect_uris ≡ true)
  unfolding check_client
  check_client-next r w v client e =
      elim (Result-cases (get_client w.store (r.query "client_id"))) [
        | inr (x, unknown) ↦ absurd (ground arith)
        | inl (c, known) ↦ elim (Result-cases (parse_redirect_uri p (r.query "redirect_uri"))) [
          | inr (x, malformed) ↦ absurd (ground arith)
          | inl (u, parsed) ↦ (ground arith, ground arith)
        ]
      ]

  ask_consent-codes :
      (client : Client) (q : PendingAuth) (w : World)
      → (ask_consent p cfg client q w).0.store.codes ≡ w.store.codes
  unfolding ask_consent issue_csrf random_token bytes
  ask_consent-codes client q w = elim (Option-cases (p.rand_read w.reads 32)) [
    | inl failed ↦ ground arith
    | inr (b, drawn) ↦ elim (Option-cases (p.rand_read (w.reads + 1) 32)) [
      | inl failed ↦ ground arith
      | inr (b', drawn') ↦ ground arith
    ]
  ]

  -- A request that passes every check up to the question of consent.
  record Passed (r : Request) (w : World) : Type 0 where
    client : Client
    user : User
    scopes : List String
    known : get_client w.store (r.query "client_id") ≡ ok client
    registered : redirect_uri_exact (r.query "redirect_uri") client.redirect_uris ≡ true
    challenged : r.query "code_challenge" ≢ ""
    scoped : normalize_scopes p.quoted (r.query "scope") true ≡ ok scopes
    signed_in : (current_user p r w).1 ≡ some user
    onward :
        let v = (current_user p r w).0 in
        let q = pending_of cfg r client scopes v in
        (handle_authorize p cfg r w).0 ≡ (
          if has_consent v.store user.id client.id scopes
          then (issue_code_redirect p cfg r user.id q v).0
          else (ask_consent p cfg client q v).0)

  handle_authorize-Passed :
      (r : Request) (w : World) (h : String) (c : AuthCode)
      → find w.store.codes h ≡ none
      → find (handle_authorize p cfg r w).0.store.codes h ≡ some c
      → Passed r w
  unfolding handle_authorize authorize check_scopes
  handle_authorize-Passed r w h c absent present =
      let here = check_request-world r w in
      let there = check_client-world r w in
      let f = current_user-frame p r w in
      let codes = f.codes in
      elim (Flow-cases (check_request p cfg r w)) [
        | inr (x, refused) ↦ absurd (ground arith)
        | inl (_, checked) ↦ elim (Flow-cases (check_client p cfg r w)) [
          | inr (x, refused) ↦ absurd (ground arith)
          | inl (client, found) ↦
              elim (Result-cases (normalize_scopes p.quoted (r.query "scope") true)) [
                | inr (x, bad) ↦ absurd (ground arith)
                | inl (scopes, good) ↦ elim (Option-cases (current_user p r w).1) [
                  | inl missing ↦ absurd (ground arith)
                  | inr (user, signed) ↦ record {
                    client = client;
                    user = user;
                    scopes = scopes;
                    known = (check_client-next r w w client (ground arith)).0;
                    registered = (check_client-next r w w client (ground arith)).1;
                    challenged = (check_request-next r w w (ground arith)).0;
                    scoped = good;
                    signed_in = signed;
                    onward = ground arith;
                  }
                ]
              ]
        ]
      ]

  -- The authorization endpoint issues a code only to a registered client with one of its own
  -- redirect URIs, under a PKCE challenge, for the signed-in and enabled user, and for the
  -- requested scopes, all of which the user had granted to this client before.
  pub handle_authorize-Granted :
      (r : Request) (w : World) (h : String) (c : AuthCode)
      → find w.store.codes h ≡ none
      → find (handle_authorize p cfg r w).0.store.codes h ≡ some c
      → Granted r w c
  handle_authorize-Granted r w h c absent present =
      let k = handle_authorize-Passed r w h c absent present in
      let f = current_user-frame p r w in
      let v = (current_user p r w).0 in
      let q = pending_of cfg r k.client k.scopes v in
      let user = k.user in
      let client = k.client in
      let scopes = k.scopes in
      let onward = k.onward in
      let codes = f.codes in
      let same = has_consent-frame w.store v.store user.id client.id scopes f.consents in
      elim (Bool-cases (has_consent v.store user.id client.id scopes)) [
        | inr asked ↦ let kept = ask_consent-codes client q v in absurd (ground arith)
        | inl granted ↦
            let (plain, sid, row) =
              issue_code_redirect-IsNewFor p cfg r user.id q v h c (ground arith) (ground arith) in
            let registered = k.registered in
            let challenged = k.challenged in
            let scoped = k.scoped in
            record {
              client = client;
              user = user;
              known = k.known;
              own = ground arith;
              registered = cc;
              to_redirect = ground arith;
              challenged = ground arith;
              scoped = cc;
              enabled = current_user-enabled p r w user k.signed_in;
              signed_in = k.signed_in;
              owned = ground arith;
              consented = cc;
            }
      ]
