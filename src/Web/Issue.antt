-- ===== src/Web/Issue.antt =====
-- Client authentication and the issuing of tokens: `authenticateClient`, `writeTokenResponse` and
-- `oidcIDToken` of apps/server/internal/web/token.go.
pub mod Frame
use pf_identity.Common.{
  ℕ, ◌+◌, ◌/◌, String, Bool, true, false, not, ◌||◌, List, Option, none, some, ◌==◌, if◌then◌else◌,
  ltb,
}
use pf_identity.Common.Text.{join_spaced}
use pf_identity.Config.{Config}
use pf_identity.Domain.{
  Result, ok, err, Error, other, User, Client, AuthCode, RefreshToken, AccessToken,
  client_confidential, audit_revoke, audit_token_issue, OrgMembershipView,
}
use pf_identity.OAuth.Pkce.{hash_token, verify_s256}
use pf_identity.OAuth.Scope.{contains}
use pf_identity.Oidc.{IdTokenInput, sign_id_token}
use pf_identity.Org.{primary_org}
use pf_identity.Password.{verify}
use pf_identity.Platform.{Platform}
use pf_identity.Store.{Store}
use pf_identity.Store.Clients.{get_client}
use pf_identity.Store.Codes.{take_code}
use pf_identity.Store.Tokens.{
  take_refresh, get_refresh, revoke_family, put_refresh, put_access, get_access,
}
use pf_identity.Store.Users.{get_by_id}
use pf_identity.Web.Current.{bearer, live_token}
use pf_identity.Web.Http.{
  Request, Response, client_error, tokens, user_info, TokenResponse, UserInfo, H, pure, answer,
  or_answer, attempt, get, audit, answers, Handler, fresh_id, ◌>>=◌, ◌>>◌,
}
use pf_identity.World.{World, ask, call, random_token, new_id}

abbrev err_client_auth : Error
err_client_auth = other "invalid client"

-- The two places where a client's credentials may stand.
unfoldable pub credentials : Request → String × String
credentials r = elim r.basic_auth [
  | some pair ↦ pair
  | none ↦ (r.form "client_id", r.form "client_secret")
]

module _ (p : Platform) where
  -- The check of the secret, by the type of the client.
  unfoldable pub check_secret : Client → String → Result Client
  check_secret c secret =
      if c.client_type == client_confidential
      then elim (verify p secret c.secret_hash) [
        | err _ ↦ err err_client_auth
        | ok matched ↦ if matched then ok c else err err_client_auth
      ]
      else if secret == ""
      then ok c
      else err err_client_auth

  unfoldable pub authenticate_client : Request → Store → Result Client
  unfolding check_secret credentials
  authenticate_client r s =
      let (id, secret) = credentials r in
      elim (get_client s id) [ err _ ↦ err err_client_auth | ok c ↦ check_secret c secret ]

  module _ (cfg : Config) where
    -- The organization that an ID token names: its id and the role in it.
    unfoldable pub org_claims : Store → String → String → List String → String × String
    org_claims s user_id sid scopes =
        if contains scopes "org"
        then elim (primary_org s user_id sid) [
          | err _ ↦ ("", "")
          | ok (primary, all) ↦ (primary.org_id, primary.role)
        ]
        else ("", "")

    unfoldable pub oidc_id_token :
        World → User → String → String → String → List String → IdTokenInput
    unfolding org_claims
    oidc_id_token w user aud nonce sid scopes =
        let (org_id, org_role) = org_claims w.store user.id sid scopes in
        record {
          issuer = cfg.issuer;
          subject = user.id;
          audience = aud;
          nonce = nonce;
          email = user.email;
          name = user.name;
          verified = user.email_verified;
          sid = sid;
          org_id = org_id;
          org_role = org_role;
          now = w.now;
          ttl = cfg.access_ttl;
        }

    -- A new refresh token, in the family that is given or in a new one.
    unfoldable pub issue_refresh : Client → String → List String → String → String → H String
    issue_refresh client user_id scopes family_id sid = do
      plain ← or_answer (random_token p) (client_error 500 "server_error" "refresh")
      family ← if family_id == "" then fresh_id p else pure family_id
      w ← get λ w. w
      or_answer
          (call λ s. put_refresh s (record {
            hash = hash_token p plain;
            family_id = family;
            client_id = client.id;
            user_id = user_id;
            scopes = scopes;
            session_sid = sid;
            expires_at = w.now + cfg.refresh_ttl;
            revoked = false;
          }))
          (client_error 500 "server_error" "refresh")
      pure plain

    unfoldable pub optional_refresh :
        Bool → Client → String → List String → String → String → H (Option String)
    unfolding issue_refresh
    optional_refresh false client user_id scopes family_id sid = pure none
    optional_refresh true client user_id scopes family_id sid = do
      plain ← issue_refresh client user_id scopes family_id sid
      pure (some plain)

    unfoldable pub write_token_response :
        Request → Client → String → List String → String → Bool → String → String → H Response
    write_token_response r client user_id scopes nonce with_refresh family_id sid = do
      user ←
          or_answer (ask λ s. get_by_id s user_id) (client_error 400 "invalid_grant" "user missing")
      access_plain ← or_answer (random_token p) (client_error 500 "server_error" "token")
      w ← get λ w. w
      or_answer
          (call λ s. put_access s (record {
            hash = hash_token p access_plain;
            client_id = client.id;
            user_id = user_id;
            scopes = scopes;
            session_sid = sid;
            expires_at = w.now + cfg.access_ttl;
          }))
          (client_error 500 "server_error" "token")
      v ← get λ w. w
      id_tok ←
          or_answer (λ w. (w, sign_id_token p (oidc_id_token v user client.id nonce sid scopes)))
            (client_error 500 "server_error" "id_token")
      refresh ← optional_refresh with_refresh client user_id scopes family_id sid
      audit p r audit_token_issue user_id client.id (r.form "grant_type")
      pure (
          tokens (record {
            access_token = access_plain;
            token_type = "Bearer";
            expires_in = cfg.access_ttl / 1_000_000_000;
            id_token = id_tok;
            scope = join_spaced scopes;
            refresh_token = refresh;
          }))
