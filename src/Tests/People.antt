-- ===== src/Tests/People.antt =====
-- Runs of accounts, passwords, sessions and organizations.
use pf_identity.Common.{
  ℕ, ◌+◌, String, ◌≡◌, refl, true, false, List, [], ◌∷◌, none, some, ◌⊎◌, find, store_at,
  if◌then◌else◌, ltb,
}
use pf_identity.Account.{normalize_email, authenticate, register, RegisterInput}
use pf_identity.Account.Login.{authenticate_sound, authenticate_uniform}
use pf_identity.Account.Registered.{authenticate-register}
use pf_identity.Common.Text.{trim_space, contains_char}
use pf_identity.Domain.{ok, err, not_found, invalid_creds, User}
use pf_identity.Password.{hash, verify, phc}
use pf_identity.Session.{start, lookup, lookup_session}
use pf_identity.Session.Lifetime.{lookup-start}
use pf_identity.Store.{Store, new_store}
use pf_identity.Store.History.{creates, disables, run}
use pf_identity.Store.History.Accounts.{run-IsIndexed}
use pf_identity.OAuth.Pkce.{hash_token}
use pf_identity.Store.Sessions.{get_session, put_session}
use pf_identity.Store.Users.{create, get_by_email, get_by_id}
use pf_identity.Store.Users.Index.{IsIndexed, create-IsIndexed, new_store-IsIndexed}
use pf_identity.Tests.Toy.{
  toy, distinct, ann, stocked, world_at, session_row, decode-encode, encode-contains_char, encode,
}
use pf_identity.World.{World, bytes, random_token, new_id}

abbrev same : String → String
same s = s

abbrev with_ann : Store
with_ann = (create same new_store ann).0

unused_id : find new_store.users "u1" ≡ none
unfolding find
unused_id = refl

-- The same store, as the premise of other runs.
indexed : IsIndexed same with_ann
indexed = create-IsIndexed same (λ e. refl) new_store ann unused_id (new_store-IsIndexed same)

found_ann : get_by_email same with_ann "ann@example.com" ≡ ok ann
unfolding create get_by_email find store_at
found_ann = refl

at_u1 : find with_ann.users "u1" ≡ some ann
unfolding create find store_at
at_u1 = refl

created_ann : create same new_store ann ≡ (with_ann, ok tt)
unfolding create find
created_ann = refl

run-IsIndexed_example : IsIndexed same (run same new_store (creates ann ∷ disables "u1" true ∷ []))
run-IsIndexed_example =
    run-IsIndexed same (λ e. refl) (creates ann ∷ disables "u1" true ∷ []) (unused_id, tt)

abbrev salt : List ℕ
salt = 0 ∷ 16 ∷ []

abbrev pub start_world : World
start_world = world_at new_store 10

abbrev pub hashed : World × String
hashed = (
  record start_world { reads = 1 },
  phc (encode salt) (encode (toy.id_key "correct horse" salt 1 65536 4 32)),
)

hash_run : hash toy "correct horse" start_world ≡ (hashed.0, ok hashed.1)
unfolding hash bytes
hash_run = refl

abbrev later_world : World
later_world = world_at stocked 10

session_run : lookup_session toy "s" later_world ≡ (later_world, ok session_row)
unfolding lookup_session find get_session hash_token encode
session_run = refl

at_cookie : find stocked.sessions (hash_token toy "s") ≡ some session_row
unfolding find hash_token encode
at_cookie = refl

own_hash : session_row.token_hash ≡ hash_token toy "s"
unfolding hash_token encode
own_hash = refl

-- The first secret that the toy platform draws.
abbrev pub first_token : String
first_token = ".11111111111111111111111111111111."

abbrev started : World
started = (start toy 1000 "u1" start_world).0

start_run : start toy 1000 "u1" start_world ≡ (started, ok (first_token, 1010))
unfolding start random_token bytes put_session encode
start_run = refl

lookup-start_example :
    (1010 ≡ 10 + 1000)
    × ((lookup toy first_token (record started { now = 500 })).1
        ≡ (if ltb 500 1010 then ok "u1" else err not_found))
lookup-start_example =
    lookup-start toy 1000 "u1" start_world started first_token 1010 500 start_run
      (distinct first_token "" refl)

abbrev pub ann_input : RegisterInput
ann_input = record { email = "ann@example.com"; password = "correct horse"; name = "Ann" }

abbrev pub registered_user : User
registered_user = record {
  id = ".";
  email = "ann@example.com";
  name = "Ann";
  password_hash = hashed.1;
  email_verified = false;
  disabled = false;
  created_at = 10;
}

abbrev pub registered : World
registered = (register toy ann_input start_world).0

register_run : register toy ann_input start_world ≡ (registered, ok registered_user)
unfolding register hash bytes normalize_email contains_char trim_space new_id create find encode
register_run = refl

authenticate-register_example :
    authenticate toy "ann@example.com" "correct horse" registered ≡ (registered, ok registered_user)
authenticate-register_example =
    authenticate-register toy (λ e. refl) decode-encode encode-contains_char (λ plain s. refl)
      ann_input start_world registered registered_user "ann@example.com" register_run refl

normal_address : normalize_email toy "ann@example.com" ≡ ok "ann@example.com"
unfolding normalize_email trim_space contains_char
normal_address = refl

login_run :
    authenticate toy "ann@example.com" "correct horse" registered ≡ (registered, ok registered_user)
login_run =
    authenticate-register toy (λ e. refl) decode-encode encode-contains_char (λ plain s. refl)
      ann_input start_world registered registered_user "ann@example.com" register_run refl

registered_IsIndexed : IsIndexed same registered.store
unfolding register hash bytes normalize_email contains_char trim_space new_id create find encode
registered_IsIndexed =
    create-IsIndexed same (λ e. refl) new_store registered_user refl (new_store-IsIndexed same)

authenticate_sound_example :
    (registered ≡ registered)
    × (registered_user.email ≡ "ann@example.com")
    × (get_by_id registered.store "." ≡ ok registered_user)
    × (registered_user.disabled ≡ false)
    × (verify toy "correct horse" hashed.1 ≡ ok true)
authenticate_sound_example =
    authenticate_sound toy (λ e. refl) "ann@example.com" "correct horse" "ann@example.com"
      registered registered registered_user registered_IsIndexed normal_address login_run

authenticate_uniform_example :
    (authenticate toy "ann@example.com" "wrong" registered ≡ (registered, err invalid_creds))
    ⊎ ((u : User) × (authenticate toy "ann@example.com" "wrong" registered ≡ (registered, ok u)))
authenticate_uniform_example =
    authenticate_uniform toy (λ e. refl) "ann@example.com" "wrong" "ann@example.com" registered
      normal_address
