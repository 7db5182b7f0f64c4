-- ===== src/Config/Env.antt =====
-- The reading of the environment: `FromEnv` and `validateProfile` of
-- apps/server/internal/config/config.go. `os.Getenv` is a parameter: "" for a missing variable.
use Prim.Native.Char.{code}
use Prim.Native.String
use pf_identity.Common.{
  ◌*◌, String, Bool, true, false, not, ◌&&◌, ◌||◌, List, [], ◌∷◌, none, some, ◌==◌, if◌then◌else◌,
  leb, member, same_number,
}
use pf_identity.Common.Text.{trim_space}
use pf_identity.Config.{Config}
use pf_identity.Domain.{Duration, Result, ok, err, other, ◌>>=◌}
use pf_identity.Platform.{Platform}

abbrev pub store_memory : String
store_memory = "memory"

abbrev pub store_postgres : String
store_postgres = "postgres"

abbrev pub env_development : String
env_development = "development"

abbrev pub env_staging : String
env_staging = "staging"

abbrev pub env_production : String
env_production = "production"

abbrev pub second : Duration
second = 1_000_000_000

-- `strings.TrimRight(s, "/")`
unfoldable pub trim_slashes : String → String
trim_slashes String.[] = ""
trim_slashes (String.◌∷◌ c s) =
    let rest = trim_slashes s in
    if rest == "" && same_number (code c) 47 then "" else String.◌∷◌ c rest

-- What `strconv.ParseBool` reads as true, and as false.
abbrev pub true_texts : List String
true_texts = "1" ∷ "t" ∷ "T" ∷ "true" ∷ "TRUE" ∷ "True" ∷ []

abbrev pub false_texts : List String
false_texts = "0" ∷ "f" ∷ "F" ∷ "false" ∷ "FALSE" ∷ "False" ∷ []

abbrev refuse : Bool → String → Result (Unit {0})
refuse bad text = if bad then err (other text) else ok tt

infixl 5 ◌>>◌
abbrev ◌>>◌ : {B : Type 0} → Result (Unit {0}) → Result B → Result B
m >> k = m >>= λ _. k

module _ (p : Platform) where
  unfoldable pub normalize_env : String → String
  normalize_env v =
      let e = p.to_lower (trim_space v) in
      if member e ("" ∷ "dev" ∷ "development" ∷ "local" ∷ "demo" ∷ [])
      then env_development
      else if member e ("staging" ∷ "stage" ∷ [])
      then env_staging
      else if member e ("production" ∷ "prod" ∷ [])
      then env_production
      else e

  -- The checks of the profiles "staging" and "production".
  unfoldable pub check_strict : Config → Result (Unit {0})
  check_strict cfg = do
    refuse cfg.dev_generate_keys
        (String.◌++◌ "IDENTITY_DEV_GENERATE_KEYS must be false when IDENTITY_ENV=" cfg.env)
    refuse (not (cfg.store == store_postgres))
        (String.◌++◌ "IDENTITY_STORE=postgres is required when IDENTITY_ENV=" cfg.env)
    refuse (trim_space cfg.rsa_private_key_path == "")
        (String.◌++◌ "IDENTITY_RSA_PRIVATE_KEY_PATH is required when IDENTITY_ENV=" cfg.env)
    refuse (cfg.env == env_production && not cfg.cookie_secure)
        "IDENTITY_COOKIE_SECURE=true is required when IDENTITY_ENV=production"

  unfoldable pub validate_profile : Config → Result (Unit {0})
  unfolding check_strict
  validate_profile cfg =
      if cfg.env == env_development
      then ok tt
      else if cfg.env == env_staging || cfg.env == env_production
      then check_strict cfg
      else err (
          other (
            String.◌++◌ "unsupported IDENTITY_ENV "
              (String.◌++◌ (p.quoted cfg.env) " (use development, staging, or production)")))

  -- The checks that every profile makes.
  unfoldable pub check_store : Config → Result (Unit {0})
  check_store cfg = do
    refuse (not (cfg.store == store_memory) && not (cfg.store == store_postgres))
        (String.◌++◌ "unsupported IDENTITY_STORE " (p.quoted cfg.store))
    refuse (cfg.store == store_postgres && cfg.database_url == "")
        "IDENTITY_DATABASE_URL is required when IDENTITY_STORE=postgres"
    refuse (not cfg.dev_generate_keys && cfg.rsa_private_key_path == "")
        "set IDENTITY_RSA_PRIVATE_KEY_PATH or IDENTITY_DEV_GENERATE_KEYS=true"

  module _ (getenv : String → String) where
    unfoldable pub env_or : String → String → String
    env_or key fallback = let v = trim_space (getenv key) in if v == "" then fallback else v

    unfoldable pub env_bool : String → Bool → Bool
    env_bool key fallback =
        let v = trim_space (getenv key) in
        if v == ""
        then fallback
        else if member v true_texts
        then true
        else if member v false_texts
        then false
        else fallback

    unfoldable pub env_duration : String → Duration → Result Duration
    env_duration key fallback =
        let v = trim_space (getenv key) in
        if v == "" then ok fallback else elim (p.parse_duration v) [
          | none ↦ err (other (String.◌++◌ "invalid " key))
          | some d ↦ if leb d 0 then err (other (String.◌++◌ key " must be positive")) else ok d
        ]

    -- The settings other than the four lifetimes.
    unfoldable pub read_texts : Duration → Duration → Duration → Duration → Config
    unfolding env_or env_bool normalize_env
    read_texts session_ttl code_ttl access_ttl refresh_ttl = record {
      env = normalize_env (getenv "IDENTITY_ENV");
      http_addr = env_or "IDENTITY_HTTP_ADDR" ":8080";
      issuer = trim_slashes (env_or "IDENTITY_ISSUER" "http://localhost:8080");
      database_url = getenv "IDENTITY_DATABASE_URL";
      cookie_secure = env_bool "IDENTITY_COOKIE_SECURE" false;
      dev_generate_keys = env_bool "IDENTITY_DEV_GENERATE_KEYS" false;
      rsa_private_key_path = getenv "IDENTITY_RSA_PRIVATE_KEY_PATH";
      store = p.to_lower (env_or "IDENTITY_STORE" store_memory);
      session_ttl = session_ttl;
      code_ttl = code_ttl;
      access_ttl = access_ttl;
      refresh_ttl = refresh_ttl;
      seed_public_client_id = trim_space (getenv "IDENTITY_SEED_PUBLIC_CLIENT_ID");
      seed_public_client_name = env_or "IDENTITY_SEED_PUBLIC_CLIENT_NAME" "Sample RP";
      seed_public_redirect = trim_space (getenv "IDENTITY_SEED_PUBLIC_REDIRECT_URI");
      seed_public_post_logout = trim_space (getenv "IDENTITY_SEED_PUBLIC_POST_LOGOUT_REDIRECT_URI");
      seed_demo_rpb_client_id = trim_space (getenv "IDENTITY_SEED_DEMO_RP_B_CLIENT_ID");
      seed_demo_rpb_client_name = env_or "IDENTITY_SEED_DEMO_RP_B_CLIENT_NAME" "Sample RP B";
      seed_demo_rpb_redirect = trim_space (getenv "IDENTITY_SEED_DEMO_RP_B_REDIRECT_URI");
      seed_demo_rpb_post_logout =
          trim_space (getenv "IDENTITY_SEED_DEMO_RP_B_POST_LOGOUT_REDIRECT_URI");
      admin_token = trim_space (getenv "IDENTITY_ADMIN_TOKEN");
      seed_demo_email = trim_space (getenv "IDENTITY_SEED_DEMO_EMAIL");
      seed_demo_password = getenv "IDENTITY_SEED_DEMO_PASSWORD";
      seed_demo_name = env_or "IDENTITY_SEED_DEMO_NAME" "Demo User";
      seed_extra_clients_json = trim_space (getenv "IDENTITY_SEED_EXTRA_CLIENTS");
    }

    unfoldable pub from_env : Result Config
    unfolding read_texts env_duration check_store validate_profile
    from_env = do
      session_ttl ← env_duration "IDENTITY_SESSION_TTL" (8 * 3600 * second)
      code_ttl ← env_duration "IDENTITY_CODE_TTL" (60 * second)
      access_ttl ← env_duration "IDENTITY_ACCESS_TTL" (15 * 60 * second)
      refresh_ttl ← env_duration "IDENTITY_REFRESH_TTL" (7 * 24 * 3600 * second)
      let cfg = read_texts session_ttl code_ttl access_ttl refresh_ttl
      check_store cfg
      validate_profile cfg
      ok cfg
