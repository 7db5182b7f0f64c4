-- ===== src/Web/Admin/Guard.antt =====
-- The guard of the administration: `requireAdmin` of apps/server/internal/web/admin.go in front of
-- every route under "/admin/api".
use pf_identity.Common.{String, ◌≡◌, ◌≢◌, ◌⊎◌, inl, inr, arith, ◌==◌, eq_iff, Bool-cases}
use pf_identity.Config.{Config}
use pf_identity.Platform.{Platform}
use pf_identity.Web.Admin.{
  require_admin, admin_create_client, handle_admin_create_client, handle_admin_list_clients,
  handle_admin_get_client, handle_admin_update_client, admin_rotate_secret,
  handle_admin_rotate_secret, handle_admin_list_users, handle_admin_set_disabled,
  handle_admin_list_audits,
}
use pf_identity.Web.AdminOrgs.{
  handle_admin_list_organizations, admin_create_organization, handle_admin_create_organization,
  handle_admin_get_organization, handle_admin_list_organization_members, admin_add_member,
  handle_admin_add_member, admin_update_member, handle_admin_update_member, admin_remove_member,
  handle_admin_remove_member,
}
use pf_identity.Web.Current.{bearer}
use pf_identity.Web.Http.{Request, http_error, stop}
use pf_identity.Web.Routes.{AdminRoute, serve_admin}
use pf_identity.World.{World}

module _ (p : Platform) (cfg : Config) (r : Request) where
  -- The request does not carry the administrator's token, or there is none.
  abbrev pub IsOutsider : Type 0
  IsOutsider = (cfg.admin_token ≡ "") ⊎ (bearer p r ≢ cfg.admin_token)

  require_admin-outsider :
      IsOutsider
      → (text : String) × ((w : World) → require_admin p cfg r w ≡ (w, stop (http_error 401 text)))
  unfolding require_admin
  require_admin-outsider (inl off) =
      ("admin api disabled", λ w. ground (arith, eq_iff cfg.admin_token ""))
  require_admin-outsider (inr wrong) = elim (Bool-cases (cfg.admin_token == "")) [
    | inl off ↦ ("admin api disabled", λ w. ground arith)
    | inr on ↦ ("unauthorized", λ w. ground (arith, eq_iff (bearer p r) cfg.admin_token))
  ]

  -- Nobody but the holder of the administrator's token gets anything from the administration: on
  -- each of its routes, with whatever body, the answer is 401 and the state stays as it was.
  pub serve_admin-outsider :
      (route : AdminRoute) (w : World)
      → IsOutsider
      → (text : String) × (serve_admin p cfg route r w ≡ (w, http_error 401 text))
  unfolding serve_admin admin_create_client handle_admin_create_client handle_admin_list_clients
      handle_admin_get_client handle_admin_update_client admin_rotate_secret
      handle_admin_rotate_secret handle_admin_list_users handle_admin_set_disabled
      handle_admin_list_audits handle_admin_list_organizations admin_create_organization
      handle_admin_create_organization handle_admin_get_organization
      handle_admin_list_organization_members admin_add_member handle_admin_add_member
      admin_update_member handle_admin_update_member admin_remove_member handle_admin_remove_member
  serve_admin-outsider route w h =
      let (text, refused) = require_admin-outsider h in (text, go route text (refused w))
    where
      go :
          (route : AdminRoute) (text : String)
          → require_admin p cfg r w ≡ (w, stop (http_error 401 text))
          → serve_admin p cfg route r w ≡ (w, http_error 401 text)
      go route text e = ground arith
