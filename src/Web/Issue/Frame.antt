-- ===== src/Web/Issue/Frame.antt =====
-- What the issuing of tokens writes, and what it leaves alone.
use pf_identity.Common.{
  ◌+◌, ◌/◌, String, ◌≡◌, ◌≢◌, Bool, true, false, List, inl, inr, ◌==◌, eq_refl, arith, Option-cases,
  Bool-cases, find-store_at,
}
use pf_identity.Common.Text.{join_spaced}
use pf_identity.Config.{Config}
use pf_identity.Domain.{ok, Client, User, AccessToken, Result-cases}
use pf_identity.OAuth.Pkce.{hash_token}
use pf_identity.Oidc.{sign_id_token}
use pf_identity.Platform.{Platform}
use pf_identity.Store.{Store}
use pf_identity.Store.Audits.{append_audit}
use pf_identity.Store.Tokens.{put_access, put_refresh, get_access}
use pf_identity.Store.Users.{get_by_id}
use pf_identity.Web.Http.{
  Request, Response, client_error, tokens, TokenResponse, Flow-cases, next, stop, fresh_id, audit,
}
use pf_identity.Web.Issue.{optional_refresh, write_token_response, oidc_id_token}
use pf_identity.World.{World, random_token, bytes}

module _ (p : Platform) (cfg : Config) where
  -- The two stores agree but for refresh tokens, access tokens and the audit trail.
  pub record SameButTokens (s t : Store) : Type 0 where
    pub codes : t.codes ≡ s.codes
    pub users : t.users ≡ s.users
    pub clients : t.clients ≡ s.clients
    pub sessions : t.sessions ≡ s.sessions
    pub consent : t.consent ≡ s.consent

  optional_refresh-access :
      (b : Bool) (client : Client) (user_id : String) (scopes : List String) (family sid : String)
      (w : World)
      → ((optional_refresh p cfg b client user_id scopes family sid w).0.store.access
          ≡ w.store.access)
        × ((optional_refresh p cfg b client user_id scopes family sid w).0.now ≡ w.now)
        × SameButTokens w.store
            (optional_refresh p cfg b client user_id scopes family sid w).0.store
  unfolding optional_refresh random_token bytes fresh_id put_refresh
  optional_refresh-access false client user_id scopes family sid w = ground arith
  optional_refresh-access true client user_id scopes family sid w =
      elim (Option-cases (p.rand_read w.reads 32)) [
        | inl failed ↦ ground arith
        | inr (b, drawn) ↦ ground arith
      ]

  pub write_token_response-SameButTokens :
      (r : Request) (client : Client) (user_id : String) (scopes : List String) (nonce : String)
      (b : Bool) (family sid : String) (w : World)
      → SameButTokens w.store
          (write_token_response p cfg r client user_id scopes nonce b family sid w).0.store
  unfolding write_token_response random_token bytes put_access audit append_audit
  write_token_response-SameButTokens r client user_id scopes nonce b family sid w =
      elim (Result-cases (get_by_id w.store user_id)) [
        | inr (x, missing) ↦ ground arith
        | inl (user, found) ↦ elim (Option-cases (p.rand_read w.reads 32)) [
          | inl failed ↦ ground arith
          | inr (bs, drawn) ↦
              let plain = p.raw_url_encode bs in
              let row : AccessToken = record {
                hash = hash_token p plain;
                client_id = client.id;
                user_id = user_id;
                scopes = scopes;
                session_sid = sid;
                expires_at = w.now + cfg.access_ttl;
              } in
              let v = record w { reads = w.reads + 1; store = (put_access w.store row).0 } in
              let (_, _, same) = optional_refresh-access b client user_id scopes family sid v in
              elim (Result-cases
                (sign_id_token p (oidc_id_token p cfg v user client.id nonce sid scopes))) [
                  | inr (x, unsigned) ↦ ground arith
                  | inl (tok, signed) ↦
                      elim (Flow-cases
                        (optional_refresh p cfg b client user_id scopes family sid v)) [
                          | inr (x, stopped) ↦ ground (arith, same.codes)
                          | inl (plain', issued) ↦ ground (arith, same.codes)
                        ]
                ]
        ]
      ]

  -- The access token that a token response stores.
  abbrev pub issued_access : Client → String → List String → String → World → String → AccessToken
  issued_access client user_id scopes sid w plain = record {
    hash = hash_token p plain;
    client_id = client.id;
    user_id = user_id;
    scopes = scopes;
    session_sid = sid;
    expires_at = w.now + cfg.access_ttl;
  }

  -- A response with tokens carries a stored access token, for an existing account.
  pub record Issued (client : Client) (user_id : String) (scopes : List String) (sid : String)
      (w w' : World) (x : Response) : Type 0 where
    pub response : TokenResponse
    pub user : User
    pub shape : x ≡ tokens response
    pub known : get_by_id w.store user_id ≡ ok user
    pub access :
        get_access w'.store (hash_token p response.access_token)
        ≡ ok (issued_access client user_id scopes sid w response.access_token)
    pub now : w'.now ≡ w.now

  pub write_token_response-Issued :
      (r : Request) (client : Client) (user_id : String) (scopes : List String) (nonce : String)
      (b : Bool) (family sid : String) (w w' : World) (x : Response)
      → write_token_response p cfg r client user_id scopes nonce b family sid w ≡ (w', next x)
      → Issued client user_id scopes sid w w' x
  unfolding write_token_response random_token bytes put_access audit append_audit get_access
  write_token_response-Issued r client user_id scopes nonce b family sid w w' x e =
      elim (Result-cases (get_by_id w.store user_id)) [
        | inr (y, missing) ↦ absurd (ground arith)
        | inl (user, found) ↦ elim (Option-cases (p.rand_read w.reads 32)) [
          | inl failed ↦ absurd (ground arith)
          | inr (bs, drawn) ↦
              let plain = p.raw_url_encode bs in
              let row = issued_access client user_id scopes sid w plain in
              let v = record w { reads = w.reads + 1; store = (put_access w.store row).0 } in
              let (kept, clock, _) = optional_refresh-access b client user_id scopes family sid v in
              let there = find-store_at w.store.access row.hash row.hash row in
              elim (Result-cases
                (sign_id_token p (oidc_id_token p cfg v user client.id nonce sid scopes))) [
                  | inr (y, unsigned) ↦ absurd (ground arith)
                  | inl (tok, signed) ↦
                      elim (Flow-cases
                        (optional_refresh p cfg b client user_id scopes family sid v)) [
                          | inr (y, stopped) ↦ absurd (ground arith)
                          | inl (refresh, issued) ↦ record {
                            response = record {
                              access_token = plain;
                              token_type = "Bearer";
                              expires_in = cfg.access_ttl / 1_000_000_000;
                              id_token = tok;
                              scope = join_spaced scopes;
                              refresh_token = refresh;
                            };
                            user = user;
                            shape = ground arith;
                            known = found;
                            access = ground (arith, kept, there, eq_refl row.hash);
                            now = ground (arith, clock);
                          }
                        ]
                ]
        ]
      ]

  optional_refresh_stops :
      (b : Bool) (client : Client) (user_id : String) (scopes : List String) (family sid : String)
      (w : World) (x : Response)
      → (optional_refresh p cfg b client user_id scopes family sid w).1 ≡ stop x
      → x ≡ client_error 500 "server_error" "refresh"
  unfolding optional_refresh random_token bytes fresh_id put_refresh
  optional_refresh_stops false client user_id scopes family sid w x e = absurd (ground arith)
  optional_refresh_stops true client user_id scopes family sid w x e =
      elim (Option-cases (p.rand_read w.reads 32)) [
        | inl failed ↦ ground arith
        | inr (b, drawn) ↦ elim (Bool-cases (family == "")) [
          | inl fresh ↦ absurd (ground arith)
          | inr given ↦ absurd (ground arith)
        ]
      ]

  -- A step of the issuing that fails never answers with tokens.
  pub write_token_response_stops :
      (r : Request) (client : Client) (user_id : String) (scopes : List String) (nonce : String)
      (b : Bool) (family sid : String) (w : World) (t : TokenResponse)
      → (write_token_response p cfg r client user_id scopes nonce b family sid w).1
        ≢ stop (tokens t)
  unfolding write_token_response random_token bytes audit
  write_token_response_stops r client user_id scopes nonce b family sid w t e =
      elim (Result-cases (get_by_id w.store user_id)) [
        | inr (y, missing) ↦ ground arith
        | inl (user, found) ↦ elim (Option-cases (p.rand_read w.reads 32)) [
          | inl failed ↦ ground arith
          | inr (bs, drawn) ↦
              let plain = p.raw_url_encode bs in
              let row = issued_access client user_id scopes sid w plain in
              let v = record w { reads = w.reads + 1; store = (put_access w.store row).0 } in
              elim (Result-cases
                (sign_id_token p (oidc_id_token p cfg v user client.id nonce sid scopes))) [
                  | inr (y, unsigned) ↦ ground arith
                  | inl (tok, signed) ↦
                      elim (Flow-cases
                        (optional_refresh p cfg b client user_id scopes family sid v)) [
                          | inr (y, stopped) ↦
                              ground (
                                arith,
                                optional_refresh_stops b client user_id scopes family sid v y,
                              )
                          | inl (refresh, issued) ↦ ground arith
                        ]
                ]
        ]
      ]
