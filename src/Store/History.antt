-- ===== src/Store/History.antt =====
-- Histories of the process-local store. The mutex makes every writing method of
-- apps/server/internal/store/memory one step, so whatever requests run at once, the store sees one
-- sequence of these steps.
pub mod SingleUse
pub mod Revocation
pub mod Families
pub mod Accounts
pub mod Keys
use pf_identity.Common.{String, Bool, List, [], ◌∷◌}
use pf_identity.Domain.{
  User, Session, Client, ClientPatch, AuthCode, RefreshToken, AccessToken, Consent, AuditEvent,
  Organization, OrganizationMembership, OrgRole,
}
use pf_identity.Store.{Store}
use pf_identity.Store.Users.{create, set_user_disabled}
use pf_identity.Store.Sessions.{
  put_session, delete_session, add_session_client, set_session_active_org,
  set_session_active_org_by_sid,
}
use pf_identity.Store.Clients.{create_client, update_client, set_client_secret}
use pf_identity.Store.Codes.{put_code, take_code}
use pf_identity.Store.Tokens.{put_refresh, take_refresh, revoke_family, put_access}
use pf_identity.Store.Consents.{put_consent}
use pf_identity.Store.Audits.{append_audit}
use pf_identity.Store.Orgs.{
  create_organization, add_organization_member, update_organization_member_role,
  remove_organization_member,
}

-- A call of a writing method, with its arguments.
pub data Call : Type 0 where
  creates : User → Call
  disables : String → Bool → Call
  puts_session : Session → Call
  deletes_session : String → Call
  adds_session_client : String → String → Call
  creates_client : Client → Call
  updates_client : String → ClientPatch → Call
  sets_secret : String → String → Call
  puts_code : AuthCode → Call
  takes_code : String → Call
  puts_refresh : RefreshToken → Call
  takes_refresh : String → Call
  revokes_family : String → Call
  puts_access : AccessToken → Call
  puts_consent : Consent → Call
  appends_audit : AuditEvent → Call
  creates_org : Organization → Call
  adds_member : OrganizationMembership → Call
  updates_role : String → String → OrgRole → Call
  removes_member : String → String → Call
  sets_active_org : String → String → Call
  sets_active_org_by_sid : String → String → Call

module _ (to_lower : String → String) where
  unfoldable pub step : Store → Call → Store
  step s (creates u) = (create to_lower s u).0
  step s (disables id b) = (set_user_disabled s id b).0
  step s (puts_session sess) = (put_session s sess).0
  step s (deletes_session hash) = (delete_session s hash).0
  step s (adds_session_client sid id) = (add_session_client s sid id).0
  step s (creates_client c) = (create_client s c).0
  step s (updates_client id p) = (update_client s id p).0
  step s (sets_secret id h) = (set_client_secret s id h).0
  step s (puts_code c) = (put_code s c).0
  step s (takes_code h) = (take_code s h).0
  step s (puts_refresh t) = (put_refresh s t).0
  step s (takes_refresh h) = (take_refresh s h).0
  step s (revokes_family f) = (revoke_family s f).0
  step s (puts_access t) = (put_access s t).0
  step s (puts_consent c) = (put_consent s c).0
  step s (appends_audit e) = (append_audit s e).0
  step s (creates_org o) = (create_organization s o).0
  step s (adds_member m) = (add_organization_member s m).0
  step s (updates_role o u r) = (update_organization_member_role s o u r).0
  step s (removes_member o u) = (remove_organization_member s o u).0
  step s (sets_active_org h o) = (set_session_active_org s h o).0
  step s (sets_active_org_by_sid sid o) = (set_session_active_org_by_sid s sid o).0

  unfoldable pub run : Store → List Call → Store
  run s [] = s
  run s (c ∷ cs) = run (step s c) cs
