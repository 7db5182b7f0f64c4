-- ===== src/Web/Orgs.antt =====
-- The endpoints for organizations: apps/server/internal/web/orgs.go. A handler takes the one field
-- of the body, `none` where the body cannot be decoded.
use pf_identity.Common.{String, Option, none, some, ◌==◌}
use pf_identity.Common.Text.{trim_space, trim_prefix, trim_suffix}
use pf_identity.Domain.{ok, err, Error, invalid, forbidden, User, AccessToken}
use pf_identity.OAuth.Pkce.{hash_token}
use pf_identity.Org.{create, list_for_user, list_members, set_active_org, set_active_org_by_sid}
use pf_identity.Platform.{Platform}
use pf_identity.Session.{cookie_name}
use pf_identity.Web.Current.{current_user, bearer_user, live_token}
use pf_identity.Web.Http.{
  Request, Response, client_error, redirect, json, no_content, H, Handler, pure, or_answer,
  or_refusal, answers, refuse, running, next, stop, ◌>>=◌, ◌>>◌,
}
use pf_identity.Web.Views.{organization, organizations, members}
use pf_identity.World.{ask, call}

-- What the errors of the organization service are answered with.
abbrev org_error : Error → Response
org_error invalid = client_error 400 "invalid_request" "name"
org_error _ = client_error 500 "server_error" "org"

abbrev list_error : Error → Response
list_error forbidden = client_error 403 "access_denied" "not a member"
list_error _ = client_error 500 "server_error" "org"

abbrev switch_error : Error → Response
switch_error forbidden = client_error 403 "access_denied" "not a member"
switch_error _ = client_error 400 "invalid_request" "org"

-- `clientError(w, 400, "invalid_request", "json")` where the body cannot be decoded.
abbrev field_of : Option String → H String
field_of body w = elim body [
  | none ↦ (w, stop (client_error 400 "invalid_request" "json"))
  | some a ↦ (w, next a)
]

-- The organization's id in the path of the request.
unfoldable pub path_org : String → String
path_org path = trim_suffix (trim_prefix path "/v1/organizations/") "/members"

module _ (p : Platform) where
  -- `u, ok := s.bearerUser(r)`, and the answer where there is none.
  unfoldable pub with_bearer : Request → H User
  with_bearer r w = elim (bearer_user p r w) [
    | none ↦ (w, stop (client_error 401 "invalid_token" "bearer required"))
    | some u ↦ (w, next u.0)
  ]

  unfoldable pub handle_create_organization : Request → Option String → Handler
  unfolding with_bearer
  handle_create_organization r body = answers (do
    u ← with_bearer r
    name ← field_of body
    created ← or_refusal (create p u.id name) org_error
    pure (json 201 (organization created)))

  unfoldable pub handle_list_organizations : Request → Handler
  unfolding with_bearer
  handle_list_organizations r = answers (do
    u ← with_bearer r
    list ← or_answer (ask λ s. list_for_user s u.id) (client_error 500 "server_error" "org")
    pure (json 200 (organizations list)))

  unfoldable pub handle_list_organization_members : Request → Handler
  unfolding with_bearer path_org
  handle_list_organization_members r = answers (do
    u ← with_bearer r
    list ← or_refusal (ask λ s. list_members s u.id (path_org r.url_path)) list_error
    pure (json 200 (members list)))

  unfoldable pub handle_set_active_org : Request → Option String → Handler
  handle_set_active_org r body = answers (do
    user ← running (current_user p r)
    u ←
        or_answer (λ w. (w, elim user [ none ↦ err invalid | some u ↦ ok u ]))
          (redirect 302 "/login")
    value ←
        or_answer (λ w. (w, elim (r.cookie cookie_name) [ none ↦ err invalid | some v ↦ ok v ]))
          (client_error 401 "invalid_request" "session")
    org_id ← field_of body
    or_refusal (call λ s. set_active_org s u.id (hash_token p value) (trim_space org_id))
        switch_error
    pure no_content)

  -- The access token of the request, which `bearerUser` has read before.
  unfoldable pub bearer_token : Request → H AccessToken
  bearer_token r w = elim (live_token p r w) [
    | none ↦ (w, stop (client_error 401 "invalid_token" "access token invalid"))
    | some tok ↦ (w, next tok)
  ]

  unfoldable pub handle_set_active_org_api : Request → Option String → Handler
  unfolding with_bearer bearer_token
  handle_set_active_org_api r body = answers (do
    u ← with_bearer r
    tok ← bearer_token r
    raw ← field_of body
    refuse (trim_space raw == "") (client_error 400 "invalid_request" "orgId")
    refuse (tok.session_sid == "") (client_error 400 "invalid_request" "session missing on token")
    or_refusal (call λ s. set_active_org_by_sid s u.id tok.session_sid (trim_space raw))
        switch_error
    pure no_content)
