-- ===== src/Config.antt =====
-- The settings of the process: `Config` of apps/server/internal/config/config.go.
pub mod Env
pub mod Profile
use pf_identity.Common.{String, Bool}
use pf_identity.Domain.{Duration}

pub record Config : Type 0 where
  pub env : String
  pub http_addr : String
  pub issuer : String
  pub database_url : String
  pub cookie_secure : Bool
  pub dev_generate_keys : Bool
  pub rsa_private_key_path : String
  pub store : String
  pub session_ttl : Duration
  pub code_ttl : Duration
  pub access_ttl : Duration
  pub refresh_ttl : Duration
  pub seed_public_client_id : String
  pub seed_public_client_name : String
  pub seed_public_redirect : String
  pub seed_public_post_logout : String
  pub seed_demo_rpb_client_id : String
  pub seed_demo_rpb_client_name : String
  pub seed_demo_rpb_redirect : String
  pub seed_demo_rpb_post_logout : String
  pub admin_token : String
  pub seed_demo_email : String
  pub seed_demo_password : String
  pub seed_demo_name : String
  pub seed_extra_clients_json : String
