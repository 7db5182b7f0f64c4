-- ===== src/Web/Token.antt =====
-- The token endpoint and userinfo: apps/server/internal/web/token.go, with `appendOrgClaims` of
-- orgs.go.
pub mod Exchange
pub mod Lifecycle
pub mod Refresh
use pf_identity.Common.{
  String, Bool, true, false, not, ◌||◌, List, Option, none, some, ◌==◌, if◌then◌else◌, ltb,
}
use pf_identity.Config.{Config}
use pf_identity.Domain.{
  Result, ok, err, User, Client, AuthCode, RefreshToken, audit_revoke, OrgMembershipView,
}
use pf_identity.OAuth.Pkce.{hash_token, verify_s256}
use pf_identity.OAuth.Scope.{contains}
use pf_identity.Org.{primary_org}
use pf_identity.Platform.{Platform}
use pf_identity.Store.{Store}
use pf_identity.Store.Codes.{take_code}
use pf_identity.Store.Tokens.{take_refresh, get_refresh, revoke_family}
use pf_identity.Store.Users.{get_by_id}
use pf_identity.Web.Current.{bearer, live_token}
use pf_identity.Web.Http.{
  Request, Response, client_error, user_info, UserInfo, H, pure, answer, or_answer, refuse, attempt,
  get, audit, answers, Handler, ◌>>=◌, ◌>>◌,
}
use pf_identity.Web.Issue.{authenticate_client, write_token_response}
use pf_identity.World.{World, ask, call}

-- `if bad { clientError(w, 400, "invalid_grant", desc); return }`
abbrev pub refuse_if : Bool → String → H (Unit {0})
refuse_if bad desc = refuse bad (client_error 400 "invalid_grant" desc)

-- Whether a call failed.
abbrev pub failed : {A : Type 0} → Result A → Bool
failed (ok a) = false
failed (err e) = true

module _ (p : Platform) (cfg : Config) where
  -- The checks on a code that was taken, in the order of the source.
  unfoldable pub check_code : Request → Client → AuthCode → H (Unit {0})
  check_code r client row = do
    w ← get λ w. w
    refuse_if (not (ltb w.now row.expires_at)) "code expired"
    refuse_if (not (row.client_id == client.id)) "code was issued to another client"
    refuse_if (not (row.redirect_uri == r.form "redirect_uri")) "redirect_uri mismatch"
    refuse_if (failed (verify_s256 p (r.form "code_verifier") row.code_challenge))
        "pkce verification failed"

  unfoldable pub token_auth_code : Request → H Response
  unfolding check_code
  token_auth_code r = do
    client ←
        or_answer (ask λ s. authenticate_client p r s)
          (client_error 401 "invalid_client" "client authentication failed")
    refuse (r.form "code" == "") (client_error 400 "invalid_request" "code is required")
    row ←
        or_answer (call λ s. take_code s (hash_token p (r.form "code")))
          (client_error 400 "invalid_grant" "code is invalid or already used")
    check_code r client row
    write_token_response p cfg r client row.user_id row.scopes row.nonce
        (contains row.scopes "offline_access") "" row.session_sid

  -- What a refresh token that could not be taken leads to: a known one revokes its family.
  unfoldable pub reuse_detected : Request → String → H (Unit {0})
  reuse_detected r hash w = elim (get_refresh w.store hash) [
    | err _ ↦ pure tt w
    | ok existing ↦
        (do
          attempt (call λ s. revoke_family s existing.family_id)
          audit p r audit_revoke existing.user_id existing.client_id existing.family_id)
          w
  ]

  -- A token that was taken too late, or by another client, revokes its family.
  unfoldable pub misuse : Request → RefreshToken → H Response
  misuse r row = do
    attempt (call λ s. revoke_family s row.family_id)
    audit p r audit_revoke row.user_id row.client_id row.family_id
    answer (client_error 400 "invalid_grant" "refresh token reuse or expiry")

  unfoldable pub token_refresh : Request → H Response
  unfolding reuse_detected misuse
  token_refresh r = do
    client ←
        or_answer (ask λ s. authenticate_client p r s)
          (client_error 401 "invalid_client" "client authentication failed")
    let hash = hash_token p (r.form "refresh_token")
    taken ← attempt (call λ s. take_refresh s hash)
    now ← get λ w. w.now
    elim taken [
      | err _ ↦
          reuse_detected r hash >> answer (client_error 400 "invalid_grant" "refresh token invalid")
      | ok row ↦
          if not (ltb now row.expires_at) || not (row.client_id == client.id)
          then misuse r row
          else write_token_response p cfg r client row.user_id row.scopes "" true row.family_id
              row.session_sid
    ]

  unfoldable pub handle_token : Request → Handler
  handle_token r = answers (
      if not r.form_parses
      then answer (client_error 400 "invalid_request" "malformed body")
      else if r.form "grant_type" == "authorization_code"
      then token_auth_code r
      else if r.form "grant_type" == "refresh_token"
      then token_refresh r
      else answer
          (client_error 400 "unsupported_grant_type" "use authorization_code or refresh_token"))

  -- `appendOrgClaims`
  unfoldable pub org_part :
      Store → String → String → List String → Option (OrgMembershipView × List OrgMembershipView)
  org_part s user_id sid scopes =
      if contains scopes "org"
      then elim (primary_org s user_id sid) [ err _ ↦ none | ok part ↦ some part ]
      else none

  unfoldable pub handle_user_info : Request → Handler
  unfolding org_part
  handle_user_info r w =
      if bearer p r == ""
      then (w, client_error 401 "invalid_token" "missing bearer token")
      else elim (live_token p r w) [
        | none ↦ (w, client_error 401 "invalid_token" "access token invalid")
        | some tok ↦ elim (get_by_id w.store tok.user_id) [
          | err _ ↦ (w, client_error 401 "invalid_token" "user")
          | ok user ↦ (
            w,
            user_info (record {
              sub = user.id;
              email =
                  if contains tok.scopes "email"
                  then some (user.email, user.email_verified)
                  else none;
              name = if contains tok.scopes "profile" then some user.name else none;
              orgs = org_part w.store user.id tok.session_sid tok.scopes;
            }),
          )
        ]
      ]
