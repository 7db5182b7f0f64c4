-- ===== src/Domain.antt =====
-- The persistence-agnostic model of the identity provider: apps/server/internal/domain.
-- A `time.Time` is its distance from the zero time, and a `time.Duration` a number, both in
-- nanoseconds.
use pf_identity.Common.{ℕ, String, Bool, List, Option, none, some, ◌≡◌, refl, ◌⊎◌, inl, inr}

abbrev pub Time : Type 0
Time = ℕ

abbrev pub Duration : Type 0
Duration = ℕ

-- The errors of errors.go, the shared login failure of the account package, and any other error
-- by its message.
pub data Error : Type 0 where
  not_found conflict used invalid forbidden invalid_creds : Error
  other : String → Error

-- `err.Error()`
unfoldable pub error_text : Error → String
error_text not_found = "not found"
error_text conflict = "conflict"
error_text used = "already used"
error_text invalid = "invalid"
error_text forbidden = "forbidden"
error_text invalid_creds = "invalid email or password"
error_text (other text) = text

-- What a Go function returns as `(T, error)`.
pub data Result {ℓ} (A : Type ℓ) : Type ℓ where
  ok : A → Result A
  err : Error → Result A

pub record User : Type 0 where
  pub id : String
  pub email : String
  pub name : String
  pub password_hash : String
  pub email_verified : Bool
  pub disabled : Bool
  pub created_at : Time

abbrev pub ClientType : Type 0
ClientType = String

abbrev pub client_confidential : ClientType
client_confidential = "confidential"

abbrev pub client_public : ClientType
client_public = "public"

pub record Client : Type 0 where
  pub id : String
  pub name : String
  pub client_type : ClientType
  pub secret_hash : String
  pub redirect_uris : List String
  pub post_logout_redirect_uris : List String
  pub front_channel_logout_uri : String
  pub back_channel_logout_uri : String
  pub token_endpoint_auth : String

pub record ClientPatch : Type 0 where
  pub name : String
  pub redirect_uris : List String
  pub post_logout_redirect_uris : List String
  pub front_channel_logout_uri : String
  pub back_channel_logout_uri : String

pub record Session : Type 0 where
  pub token_hash : String
  pub user_id : String
  pub sid : String
  pub active_org_id : String
  pub expires_at : Time

abbrev pub OrgRole : Type 0
OrgRole = String

abbrev pub org_role_owner : OrgRole
org_role_owner = "owner"

abbrev pub org_role_member : OrgRole
org_role_member = "member"

pub record Organization : Type 0 where
  pub id : String
  pub name : String
  pub created_at : Time

pub record OrganizationMembership : Type 0 where
  pub org_id : String
  pub user_id : String
  pub role : OrgRole
  pub joined_at : Time

pub record OrgMemberDetail : Type 0 where
  pub user_id : String
  pub role : String
  pub email : String
  pub name : String
  pub joined_at : Time

pub record OrgMembershipView : Type 0 where
  pub org_id : String
  pub org_name : String
  pub role : String

pub record AuthCode : Type 0 where
  pub hash : String
  pub client_id : String
  pub user_id : String
  pub redirect_uri : String
  pub scopes : List String
  pub nonce : String
  pub code_challenge : String
  pub session_sid : String
  pub expires_at : Time
  pub used : Bool

pub record RefreshToken : Type 0 where
  pub hash : String
  pub family_id : String
  pub client_id : String
  pub user_id : String
  pub scopes : List String
  pub session_sid : String
  pub expires_at : Time
  pub revoked : Bool

pub record AccessToken : Type 0 where
  pub hash : String
  pub client_id : String
  pub user_id : String
  pub scopes : List String
  pub session_sid : String
  pub expires_at : Time

pub record Consent : Type 0 where
  pub user_id : String
  pub client_id : String
  pub scopes : List String

abbrev pub audit_login_fail : String
audit_login_fail = "login_fail"

abbrev pub audit_consent : String
audit_consent = "consent"

abbrev pub audit_token_issue : String
audit_token_issue = "token_issue"

abbrev pub audit_revoke : String
audit_revoke = "revoke"

pub record AuditEvent : Type 0 where
  pub id : String
  pub kind : String
  pub at : Time
  pub subject : String
  pub client_id : String
  pub ip : String
  pub note : String

pub record AuditPage : Type 0 where
  pub items : List AuditEvent
  pub next : String

infixl 5 ◌>>=◌
abbrev pub ◌>>=◌ {ℓ κ} : {A : Type ℓ} {B : Type κ} → Result A → (A → Result B) → Result B
ok a >>= f = f a
err e >>= f = err e

-- A lookup that reports a missing row.
abbrev pub or_not_found {ℓ} : {A : Type ℓ} → Option A → Result A
or_not_found none = err not_found
or_not_found (some a) = ok a

pub Result-cases {ℓ} :
    {A : Type ℓ} (r : Result A) → ((a : A) × (r ≡ ok a)) ⊎ ((e : Error) × (r ≡ err e))
Result-cases (ok a) = inl (a, refl)
Result-cases (err e) = inr (e, refl)
