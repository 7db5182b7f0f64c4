-- ===== src/Config/Profile.antt =====
-- What the settings are after a start that succeeded: `FromEnv`, with `validateProfile` and
-- `envDuration`, of apps/server/internal/config/config.go.
use pf_identity.Common.{
  String, ◌≡◌, refl, subst, ◌≢◌, ◌⊎◌, inl, inr, ◌<◌, ◌*◌, true, false, ◌==◌, eq_iff, arith,
  Bool-cases, Option-cases,
}
use pf_identity.Common.Text.{trim_space}
use pf_identity.Config.{Config}
use pf_identity.Config.Env.{
  store_memory, store_postgres, env_development, env_staging, env_production, second, check_strict,
  validate_profile, check_store, env_duration, read_texts, from_env,
}
use pf_identity.Domain.{Duration, Result, ok, err, ◌>>=◌}
use pf_identity.Platform.{Platform}

bind-ok :
    {A B : Type 0} (m : Result A) (f : A → Result B) (b : B)
    → (m >>= f) ≡ ok b
    → (a : A) × (m ≡ ok a) × (f a ≡ ok b)
bind-ok (ok a) f b h = (a, refl, h)
bind-ok (err e) f b h = absurd (ground arith)

-- The settings that only a developer's machine may lack, under a profile that is known.
pub record IsStrict (cfg : Config) : Type 0 where
  pub named : (cfg.env ≡ env_staging) ⊎ (cfg.env ≡ env_production)
  pub no_dev_keys : cfg.dev_generate_keys ≡ false
  pub durable : cfg.store ≡ store_postgres
  pub key_file : trim_space cfg.rsa_private_key_path ≢ ""
  pub secure : (cfg.env ≡ env_staging) ⊎ (cfg.cookie_secure ≡ true)

pub record IsRunnable (cfg : Config) : Type 0 where
  pub lifetimes :
      (0 < cfg.session_ttl) × (0 < cfg.code_ttl) × (0 < cfg.access_ttl) × (0 < cfg.refresh_ttl)
  pub profile : (cfg.env ≡ env_development) ⊎ IsStrict cfg
  pub stored : (cfg.store ≡ store_memory) ⊎ ((cfg.store ≡ store_postgres) × (cfg.database_url ≢ ""))
  pub keyed : (cfg.dev_generate_keys ≡ true) ⊎ (cfg.rsa_private_key_path ≢ "")

module _ (p : Platform) where
  check_strict-IsStrict :
      (cfg : Config)
      → check_strict p cfg ≡ ok tt
      → ((cfg.env ≡ env_staging) ⊎ (cfg.env ≡ env_production))
      → IsStrict cfg
  unfolding check_strict
  check_strict-IsStrict cfg h k = record {
    named = k;
    no_dev_keys = ground arith;
    durable = ground (arith, eq_iff cfg.store store_postgres);
    key_file = λ e.
        ground
          (arith, eq_iff (trim_space cfg.rsa_private_key_path) "", eq_iff cfg.store store_postgres);
    secure = elim k [
      | inl staged ↦ inl staged
      | inr live ↦ inr (ground (arith, eq_iff cfg.env env_production))
    ];
  }

  validate_profile-IsStrict :
      (cfg : Config) → validate_profile p cfg ≡ ok tt → (cfg.env ≡ env_development) ⊎ IsStrict cfg
  unfolding validate_profile
  validate_profile-IsStrict cfg h = elim (Bool-cases (cfg.env == env_development)) [
    | inl dev ↦ inl ((eq_iff _ _).0 dev)
    | inr live ↦ inr (
        check_strict-IsStrict cfg (ground arith) (elim (Bool-cases (cfg.env == env_staging)) [
          | inl staged ↦ inl ((eq_iff _ _).0 staged)
          | inr unstaged ↦ inr ((eq_iff cfg.env env_production).0 (ground arith))
        ]))
  ]

  module _ (getenv : String → String) where
    env_duration-positive :
        (key : String) (fallback d : Duration)
        → 0 < fallback
        → env_duration p getenv key fallback ≡ ok d
        → 0 < d
    unfolding env_duration
    env_duration-positive key fallback d f h =
        elim (Option-cases (p.parse_duration (trim_space (getenv key)))) [
          | inl bad ↦ ground arith
          | inr (n, read) ↦ ground arith
        ]

    abbrev duration : String → Duration → Result Duration
    duration = env_duration p getenv

    check_store-choice :
        (cfg : Config)
        → check_store p cfg ≡ ok tt
        → ((cfg.store ≡ store_memory) ⊎ ((cfg.store ≡ store_postgres) × (cfg.database_url ≢ "")))
          × ((cfg.dev_generate_keys ≡ true) ⊎ (cfg.rsa_private_key_path ≢ ""))
    unfolding check_store
    check_store-choice cfg h = (
      elim (Bool-cases (cfg.store == store_memory)) [
        | inl own ↦ inl ((eq_iff _ _).0 own)
        | inr remote ↦ inr (
          ground (arith, eq_iff cfg.store store_postgres),
          ground (arith, eq_iff cfg.database_url "", eq_iff cfg.store store_postgres),
        )
      ],
      elim (Bool-cases cfg.dev_generate_keys) [
        | inl dev ↦ inl dev
        | inr none ↦
            inr
              (ground (arith, eq_iff cfg.rsa_private_key_path "", eq_iff cfg.store store_postgres))
      ],
    )

    -- A server that starts is fit to run. Its four lifetimes are positive; its store is the
    -- process-local one or PostgreSQL with an address; it has a key; and outside the profile
    -- "development" the profile is "staging" or "production", and it has PostgreSQL, a key file, no
    -- generated keys and, unless it is "staging", secure cookies. So no other profile and no other
    -- store starts.
    pub from_env-IsRunnable : (cfg : Config) → from_env p getenv ≡ ok cfg → IsRunnable cfg
    unfolding from_env
    from_env-IsRunnable cfg h =
        let (a, reads_a, k) =
          bind-ok (duration "IDENTITY_SESSION_TTL" (8 * 3600 * second)) _ cfg h in
        let (b, reads_b, l) = bind-ok (duration "IDENTITY_CODE_TTL" (60 * second)) _ cfg k in
        let (c, reads_c, m) = bind-ok (duration "IDENTITY_ACCESS_TTL" (15 * 60 * second)) _ cfg l in
        let (d, reads_d, n) =
          bind-ok (duration "IDENTITY_REFRESH_TTL" (7 * 24 * 3600 * second)) _ cfg m in
        let made = read_texts p getenv a b c d in
        let (u, stored, o) = bind-ok (check_store p made) _ cfg n in
        let (v, valid, q) = bind-ok (validate_profile p made) _ cfg o in
        let (choice, keys) = check_store-choice made stored in
        subst IsRunnable (ground (arith, q)) (record {
          lifetimes = (
            env_duration-positive "IDENTITY_SESSION_TTL" (8 * 3600 * second) a (omega arith)
                reads_a,
            env_duration-positive "IDENTITY_CODE_TTL" (60 * second) b (omega arith) reads_b,
            env_duration-positive "IDENTITY_ACCESS_TTL" (15 * 60 * second) c (omega arith) reads_c,
            env_duration-positive "IDENTITY_REFRESH_TTL" (7 * 24 * 3600 * second) d (omega arith)
                reads_d,
          );
          profile = validate_profile-IsStrict made valid;
          stored = choice;
          keyed = keys;
        })
