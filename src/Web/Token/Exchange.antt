-- ===== src/Web/Token/Exchange.antt =====
-- What an exchange of an authorization code at the token endpoint has established.
use pf_identity.Common.{
  String, ◌<◌, ◌≡◌, ◌≢◌, refl, true, false, some, inl, inr, ◌==◌, eq_iff, arith, ltb, find,
  Option-cases, Bool-cases,
}
use pf_identity.Config.{Config}
use pf_identity.Domain.{ok, Client, AuthCode, Result-cases}
use pf_identity.OAuth.Pkce.{hash_token, verify_s256}
use pf_identity.OAuth.Scope.{contains}
use pf_identity.Platform.{Platform}
use pf_identity.Store.{Store}
use pf_identity.Store.Codes.{take_code}
use pf_identity.Web.Http.{
  Request, Response, client_error, tokens, TokenResponse, Flow-cases, next, stop, answers,
}
use pf_identity.Web.Issue.{authenticate_client, write_token_response}
use pf_identity.Web.Issue.Frame.{write_token_response_stops}
use pf_identity.Web.Token.{check_code, token_auth_code}
use pf_identity.World.{World}

take_code-eq-ok :
    (s t : Store) (hash : String) (c : AuthCode)
    → take_code s hash ≡ (t, ok c)
    → (row : AuthCode) × (find s.codes hash ≡ some row)
      × (row.used ≡ false)
      × (c ≡ record row { used = true })
unfolding take_code
take_code-eq-ok s t hash c e = elim (Option-cases (find s.codes hash)) [
  | inl missing ↦ absurd (ground arith)
  | inr (row, found) ↦ (row, found, ground arith, ground arith)
]

module _ (p : Platform) (cfg : Config) (r : Request) where
  -- What the checks on a taken code make sure of.
  pub record Passes (client : Client) (row : AuthCode) (w : World) : Type 0 where
    pub in_time : w.now < row.expires_at
    pub own : row.client_id ≡ client.id
    pub same_redirect : row.redirect_uri ≡ r.form "redirect_uri"
    pub proved : verify_s256 p (r.form "code_verifier") row.code_challenge ≡ ok tt

  check_code-Passes :
      (client : Client) (row : AuthCode) (w v : World)
      → check_code p cfg r client row w ≡ (v, next tt)
      → Passes client row w × (v ≡ w)
  unfolding check_code
  check_code-Passes client row w v e =
      elim (Result-cases (verify_s256 p (r.form "code_verifier") row.code_challenge)) [
        | inr (x, wrong) ↦ absurd (ground arith)
        | inl (tt, proved) ↦ (
          record {
            in_time = ground arith;
            own = ground (arith, eq_iff row.client_id client.id);
            same_redirect = ground (arith, eq_iff row.redirect_uri (r.form "redirect_uri"));
            proved = proved;
          },
          ground arith,
        )
      ]

  -- A check that fails answers with an error and changes nothing.
  check_code_stops :
      (client : Client) (row : AuthCode) (w v : World) (x : Response)
      → check_code p cfg r client row w ≡ (v, stop x)
      → (desc : String) × (x ≡ client_error 400 "invalid_grant" desc) × (v ≡ w)
  unfolding check_code
  check_code_stops client row w v x e = elim (Bool-cases (ltb w.now row.expires_at)) [
    | inr late ↦ ("code expired", ground arith, ground arith)
    | inl in_time ↦ elim (Bool-cases (row.client_id == client.id)) [
      | inr foreign ↦ ("code was issued to another client", ground arith, ground arith)
      | inl own ↦ elim (Bool-cases (row.redirect_uri == r.form "redirect_uri")) [
        | inr elsewhere ↦ ("redirect_uri mismatch", ground arith, ground arith)
        | inl same ↦ ("pkce verification failed", ground arith, ground arith)
      ]
    ]
  ]

  Passes-row :
      (client : Client) (row taken : AuthCode) (w v : World)
      → taken ≡ record row { used = true }
      → v.now ≡ w.now
      → Passes client taken v
      → Passes client row w
  Passes-row client row taken w v marked same k =
      let in_time = k.in_time in
      let own = k.own in
      let there = k.same_redirect in
      let proved = k.proved in
      record {
        in_time = ground arith;
        own = ground arith;
        same_redirect = ground arith;
        proved = ground arith;
      }

  pub record Redeemed (w w' : World) (t : TokenResponse) : Type 0 where
    pub client : Client
    pub row : AuthCode
    pub named : r.form "code" ≢ ""
    pub authenticated : authenticate_client p r w.store ≡ ok client
    pub stored : find w.store.codes (hash_token p (r.form "code")) ≡ some row
    pub unused : row.used ≡ false
    pub passes : Passes client row w
    -- The response is issued after the code was taken, to the client, for the row's user.
    pub issued :
        write_token_response p cfg r client row.user_id row.scopes row.nonce
          (contains row.scopes "offline_access")
          ""
          row.session_sid
          (record w { store = (take_code w.store (hash_token p (r.form "code"))).0 })
        ≡ (w', next (tokens t))

  -- Tokens are issued for a code only to an authenticated client, for a stored and unused code
  -- that has not expired, that was issued to this client with this redirect URI, and whose PKCE
  -- challenge the request's verifier answers.
  pub token_auth_code-Redeemed :
      (w w' : World) (t : TokenResponse)
      → answers (token_auth_code p cfg r) w ≡ (w', tokens t)
      → Redeemed w w' t
  unfolding token_auth_code
  token_auth_code-Redeemed w w' t e = elim (Result-cases (authenticate_client p r w.store)) [
    | inr (x, unknown) ↦ absurd (ground arith)
    | inl (client, authenticated) ↦ elim (Bool-cases (r.form "code" == "")) [
      | inl blank ↦ absurd (ground arith)
      | inr given ↦ elim (Result-cases (take_code w.store (hash_token p (r.form "code"))).1) [
        | inr (x, spent) ↦ absurd (ground arith)
        | inl (taken, took) ↦
            let s = (take_code w.store (hash_token p (r.form "code"))).0 in
            let v = record w { store = s } in
            let (row, stored, unused, marked) =
              take_code-eq-ok w.store s (hash_token p (r.form "code")) taken (ground arith) in
            elim (Flow-cases (check_code p cfg r client taken v)) [
              | inr (x, refused) ↦
                  let (desc, answered, _) = check_code_stops client taken v _ x refused in
                  absurd (ground arith)
              | inl (_, passed) ↦
                  let (k, same) = check_code-Passes client taken v _ passed in
                  let write =
                    write_token_response p cfg r client row.user_id row.scopes row.nonce
                      (contains row.scopes "offline_access") "" row.session_sid v in
                  record {
                    client = client;
                    row = row;
                    named = ground (arith, eq_iff (r.form "code") "");
                    authenticated = authenticated;
                    stored = stored;
                    unused = unused;
                    passes = Passes-row client row taken w v marked refl k;
                    issued = elim (Flow-cases write) [
                      | inl (x, written) ↦ ground arith
                      | inr (x, stopped) ↦ absurd (
                          write_token_response_stops p cfg r client row.user_id row.scopes row.nonce
                            (contains row.scopes "offline_access") "" row.session_sid v t
                            (ground arith))
                    ];
                  }
            ]
      ]
    ]
  ]
