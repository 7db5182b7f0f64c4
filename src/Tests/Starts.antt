-- ===== src/Tests/Starts.antt =====
-- Runs of the start of the server.
use pf_identity.Common.{String, ◌≡◌, refl, true, [], ◌∷◌, some, arith, find, store_at, member, ◌*◌}
use pf_identity.Common.Text.{trim_space, trim_prefix, trim_suffix, has_suffix}
use pf_identity.Config.{Config}
use pf_identity.Config.Env.{
  normalize_env, check_strict, validate_profile, check_store, env_or, env_bool, env_duration,
  read_texts, trim_slashes, second, from_env,
}
use pf_identity.Config.Profile.{IsRunnable, from_env-IsRunnable}
use pf_identity.Domain.{ok, Client}
use pf_identity.OAuth.Redirect.{parse_redirect_uri, check_redirect}
use pf_identity.Seed.{
  union_exact, same_strings, moved_url, is_current, upsert_client, replace_callback_path,
  default_post_logout_uri, wanted_client, upsert_public_client,
}
use pf_identity.Seed.Again.{upsert_public_client-again, upsert_public_client-keeps}
use pf_identity.Store.{new_store}
use pf_identity.Store.Clients.{get_client, update_client}
use pf_identity.Store.History.{creates_client, sets_secret, run}
use pf_identity.Store.History.Keys.{HasOwnId, IsKeyed, run-IsKeyed}
use pf_identity.Tests.Toy.{toy, stocked, world_at, shop, fields_of}
use pf_identity.World.{World}

abbrev production : String → String
production = fields_of (
    ("IDENTITY_ENV", "prod")
    ∷ ("IDENTITY_STORE", "postgres")
    ∷ ("IDENTITY_DATABASE_URL", "db")
    ∷ ("IDENTITY_RSA_PRIVATE_KEY_PATH", "key.pem")
    ∷ ("IDENTITY_COOKIE_SECURE", "true")
    ∷ [])

abbrev running : Config
running =
    read_texts toy production (8 * 3600 * second) (60 * second) (15 * 60 * second)
      (7 * 24 * 3600 * second)

production_run : from_env toy production ≡ ok running
unfolding from_env read_texts env_duration check_store validate_profile check_strict trim_space
    normalize_env env_or env_bool trim_slashes
production_run = refl

from_env-IsRunnable_example : IsRunnable running
from_env-IsRunnable_example = from_env-IsRunnable toy production running production_run

-- The shop is there before it is seeded, with one redirect URI.
abbrev before : World
before = world_at stocked 10

abbrev seeded : World
seeded = (upsert_public_client toy "shop" "Shop" "https://rp.example/callback" "" before).0

seed_run :
    upsert_public_client toy "shop" "Shop" "https://rp.example/callback" "" before ≡ (seeded, ok tt)
unfolding upsert_public_client wanted_client default_post_logout_uri replace_callback_path
    parse_redirect_uri check_redirect moved_url has_suffix trim_suffix trim_prefix upsert_client
    get_client find is_current same_strings union_exact update_client store_at
seed_run = refl

shop-HasOwnId : HasOwnId before.store "shop"
unfolding find
shop-HasOwnId c found = ground arith

upsert_public_client-again_example :
    upsert_public_client toy "shop" "Shop" "https://rp.example/callback" "" seeded ≡ (seeded, ok tt)
upsert_public_client-again_example =
    upsert_public_client-again toy "shop" "Shop" "https://rp.example/callback" "" before seeded
      shop-HasOwnId seed_run

shop_there : find before.store.clients "shop" ≡ some shop
unfolding find
shop_there = refl

upsert_public_client-keeps_example :
    (c : Client) × (get_client seeded.store "shop" ≡ ok c)
    × (member "https://rp.example/cb" c.redirect_uris ≡ true)
    × (member "https://rp.example/callback" c.redirect_uris ≡ true)
    × (c.name ≡ "Shop")
    × (c.client_type ≡ "public")
    × (c.secret_hash ≡ "")
upsert_public_client-keeps_example =
    upsert_public_client-keeps toy "shop" "Shop" "https://rp.example/callback" "" before seeded
      shop-HasOwnId seed_run shop "https://rp.example/cb" shop_there refl

run-IsKeyed_example :
    IsKeyed (run (λ s. s) new_store (creates_client shop ∷ sets_secret "shop" "h" ∷ []))
run-IsKeyed_example = run-IsKeyed (λ s. s) (creates_client shop ∷ sets_secret "shop" "h" ∷ [])
