-- ===== src/Web/Views.antt =====
-- What the JSON endpoints answer with: the views of apps/server/internal/web/admin.go and
-- admin_orgs.go. `null` and an empty list are one value here, as `viewClient` makes them.
use pf_identity.Common.{String, Bool, not, List, Option, ◌==◌}
use pf_identity.Domain.{Client, User, Organization, OrgMemberDetail, AuditPage}
use pf_identity.Platform.{Platform}

pub record AdminClientView : Type 0 where
  pub id : String
  pub name : String
  pub client_type : String
  pub redirect_uris : List String
  pub post_logout_redirect_uris : List String
  pub front_channel_logout_uri : String
  pub back_channel_logout_uri : String
  pub token_endpoint_auth : String
  pub has_secret : Bool

pub record AdminUserView : Type 0 where
  pub id : String
  pub email : String
  pub name : String
  pub disabled : Bool
  pub created_at : String

pub record AdminOrgView : Type 0 where
  pub id : String
  pub name : String
  pub created_at : String

pub record AdminOrgMemberView : Type 0 where
  pub user_id : String
  pub email : String
  pub name : String
  pub role : String
  pub joined_at : String

-- The bodies that `writeJSON` is called with.
pub data Body : Type 0 where
  client_list : List AdminClientView → Body
  client_body : AdminClientView → Body
  -- a new client, and its secret if it has one
  client_created : AdminClientView → Option String → Body
  secret_body : String → Body
  user_list : List AdminUserView → Body
  user_body : AdminUserView → Body
  audit_page : AuditPage → Body
  admin_org_list : List AdminOrgView → Body
  admin_org : AdminOrgView → Body
  admin_members : List AdminOrgMemberView → Body
  admin_member : AdminOrgMemberView → Body
  organization : Organization → Body
  organizations : List Organization → Body
  members : List OrgMemberDetail → Body

unfoldable pub view_client : Client → AdminClientView
view_client c = record {
  id = c.id;
  name = c.name;
  client_type = c.client_type;
  redirect_uris = c.redirect_uris;
  post_logout_redirect_uris = c.post_logout_redirect_uris;
  front_channel_logout_uri = c.front_channel_logout_uri;
  back_channel_logout_uri = c.back_channel_logout_uri;
  token_endpoint_auth = c.token_endpoint_auth;
  has_secret = not (c.secret_hash == "");
}

module _ (p : Platform) where
  unfoldable pub view_user : User → AdminUserView
  view_user u = record {
    id = u.id;
    email = u.email;
    name = u.name;
    disabled = u.disabled;
    created_at = p.format_time u.created_at;
  }

  unfoldable pub view_org : Organization → AdminOrgView
  view_org o = record { id = o.id; name = o.name; created_at = p.format_time o.created_at }
