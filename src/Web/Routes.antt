-- ===== src/Web/Routes.antt =====
-- The routes of the server: `NewServer` of apps/server/internal/web/server.go, without the static
-- documents (`/health`, the discovery document and the keys). A route holds the body of its request
-- where its handler decodes one.
use pf_identity.Common.{String, Bool, Option}
use pf_identity.Config.{Config}
use pf_identity.Platform.{Platform}
use pf_identity.Web.Account.{handle_register_form, handle_register, handle_login_form, handle_login}
use pf_identity.Web.Admin.{
  ClientInput, handle_admin_create_client, handle_admin_list_clients, handle_admin_get_client,
  handle_admin_update_client, handle_admin_rotate_secret, handle_admin_list_users,
  handle_admin_set_disabled, handle_admin_list_audits,
}
use pf_identity.Web.AdminOrgs.{
  OrgInput, MemberInput, handle_admin_list_organizations, handle_admin_create_organization,
  handle_admin_get_organization, handle_admin_list_organization_members, handle_admin_add_member,
  handle_admin_update_member, handle_admin_remove_member,
}
use pf_identity.Web.Authorize.{handle_authorize, handle_consent}
use pf_identity.Web.EndSession.{handle_end_session, handle_logout, handle_home}
use pf_identity.Web.Http.{Request, Handler}
use pf_identity.Web.Orgs.{
  handle_create_organization, handle_list_organizations, handle_list_organization_members,
  handle_set_active_org, handle_set_active_org_api,
}
use pf_identity.Web.Token.{handle_token, handle_user_info}

-- The routes under "/admin/api".
pub data AdminRoute : Type 0 where
  lists_clients : AdminRoute
  creates_client : Option ClientInput → AdminRoute
  gets_client : AdminRoute
  updates_client : Option ClientInput → AdminRoute
  rotates_secret : AdminRoute
  lists_users : AdminRoute
  sets_disabled : Option Bool → AdminRoute
  lists_audits : AdminRoute
  lists_organizations : AdminRoute
  creates_organization : Option OrgInput → AdminRoute
  gets_organization : AdminRoute
  lists_members : AdminRoute
  adds_member : Option MemberInput → AdminRoute
  updates_member : Option String → AdminRoute
  removes_member : AdminRoute

pub data Route : Type 0 where
  register_form : Route
  register : Route
  login_form : Route
  login : Route
  logout : Route
  end_session : Route
  home : Route
  authorize : Route
  consent : Route
  token : Route
  user_info : Route
  admin : AdminRoute → Route
  create_organization : Option String → Route
  list_organizations : Route
  list_organization_members : Route
  set_active_org : Option String → Route
  set_active_org_api : Option String → Route

module _ (p : Platform) (cfg : Config) where
  unfoldable pub serve_admin : AdminRoute → Request → Handler
  serve_admin lists_clients r = handle_admin_list_clients p cfg r
  serve_admin (creates_client body) r = handle_admin_create_client p cfg r body
  serve_admin gets_client r = handle_admin_get_client p cfg r
  serve_admin (updates_client body) r = handle_admin_update_client p cfg r body
  serve_admin rotates_secret r = handle_admin_rotate_secret p cfg r
  serve_admin lists_users r = handle_admin_list_users p cfg r
  serve_admin (sets_disabled body) r = handle_admin_set_disabled p cfg r body
  serve_admin lists_audits r = handle_admin_list_audits p cfg r
  serve_admin lists_organizations r = handle_admin_list_organizations p cfg r
  serve_admin (creates_organization body) r = handle_admin_create_organization p cfg r body
  serve_admin gets_organization r = handle_admin_get_organization p cfg r
  serve_admin lists_members r = handle_admin_list_organization_members p cfg r
  serve_admin (adds_member body) r = handle_admin_add_member p cfg r body
  serve_admin (updates_member body) r = handle_admin_update_member p cfg r body
  serve_admin removes_member r = handle_admin_remove_member p cfg r

  unfoldable pub serve : Route → Request → Handler
  unfolding serve_admin
  serve register_form r = handle_register_form p cfg r
  serve register r = handle_register p cfg r
  serve login_form r = handle_login_form p cfg r
  serve login r = handle_login p cfg r
  serve logout r = handle_logout p cfg r
  serve end_session r = handle_end_session p cfg r
  serve home r = handle_home p cfg r
  serve authorize r = handle_authorize p cfg r
  serve consent r = handle_consent p cfg r
  serve token r = handle_token p cfg r
  serve user_info r = handle_user_info p cfg r
  serve (admin route) r = serve_admin route r
  serve (create_organization body) r = handle_create_organization p r body
  serve list_organizations r = handle_list_organizations p r
  serve list_organization_members r = handle_list_organization_members p r
  serve (set_active_org body) r = handle_set_active_org p r body
  serve (set_active_org_api body) r = handle_set_active_org_api p r body
