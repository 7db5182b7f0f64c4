-- ===== src/Store.antt =====
-- The process-local store: apps/server/internal/store/memory/store.go and orgs.go. Every method
-- holds the store's mutex from its first statement to its return, so it is one atomic step, a
-- function of the store.
pub mod Users
pub mod Sessions
pub mod Clients
pub mod Codes
pub mod Tokens
pub mod Consents
pub mod Audits
pub mod Orgs
pub mod History
use pf_identity.Common.{String, List, [], Dict}
use pf_identity.Domain.{
  Result, User, Session, Client, AuthCode, RefreshToken, AccessToken, Consent, AuditEvent,
  Organization, OrganizationMembership,
}

pub record Store : Type 0 where
  pub users : Dict User
  pub by_email : Dict String
  pub sessions : Dict Session
  pub clients : Dict Client
  pub codes : Dict AuthCode
  pub refresh : Dict RefreshToken
  pub access : Dict AccessToken
  pub consent : Dict Consent
  pub audits : List AuditEvent
  -- The clients of an OP session, by its sid.
  pub sid_rp : Dict (List String)
  pub orgs : Dict Organization
  -- The memberships of an organization, by its id and then by the user's.
  pub org_members : Dict (Dict OrganizationMembership)

abbrev pub new_store : Store
new_store = record {
  users = [];
  by_email = [];
  sessions = [];
  clients = [];
  codes = [];
  refresh = [];
  access = [];
  consent = [];
  audits = [];
  sid_rp = [];
  orgs = [];
  org_members = [];
}

-- What a method that writes returns: the new store, and its `error` or its result.
abbrev pub Updated : Type 0 → Type 0
Updated A = Store × Result A

abbrev pub Written : Type 0
Written = Updated (Unit {0})
