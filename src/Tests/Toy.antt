-- ===== src/Tests/Toy.antt =====
-- A concrete platform and concrete rows.
use Prim.Native.Char.{code}
use Prim.Native.String
use Prim.Native.String.{len}
use pf_identity.Common.{
  ℕ, zero, suc, ◌+◌, String, ◌≡◌, ◌≢◌, eq_iff, refl, Bool, true, false, List, [], ◌∷◌, Option, none,
  some, ◌==◌, arith, if◌then◌else◌, same_number,
}
use pf_identity.Common.Text.{contains_char}
use pf_identity.Config.{Config}
use pf_identity.Domain.{ok, err, invalid, User, Client, AuthCode, RefreshToken, Session}
use pf_identity.Platform.{Platform}
use pf_identity.RateLimit.{new, minute}
use pf_identity.Store.{Store, new_store}
use pf_identity.Web.Http.{Request}
use pf_identity.World.{World}

-- A list of numbers as text: "1" for each unit, "." after each number.
unfoldable pub units : ℕ → String → String
units zero s = String.◌∷◌ "." s
units (suc n) s = String.◌∷◌ "1" (units n s)

unfoldable pub encode : List ℕ → String
unfolding units
encode [] = ""
encode (n ∷ ns) = units n (encode ns)

unfoldable pub decode_from : ℕ → String → Option (List ℕ)
decode_from acc String.[] = some []
decode_from acc (String.◌∷◌ c s) =
    let more = decode_from (suc acc) s in
    let rest = decode_from 0 s in
    if same_number (code c) 49 then more else elim rest [ none ↦ none | some ns ↦ some (acc ∷ ns) ]

decode-units :
    (acc n : ℕ) (s : String) (ns : List ℕ)
    → decode_from 0 s ≡ some ns
    → decode_from acc (units n s) ≡ some ((acc + n) ∷ ns)
unfolding decode_from units
decode-units acc zero s ns e = ground arith
decode-units acc (suc n) s ns e = ground (arith, decode-units (suc acc) n s ns e)

pub decode-encode : (b : List ℕ) → decode_from 0 (encode b) ≡ some b
unfolding decode_from encode
decode-encode [] = refl
decode-encode (n ∷ ns) = ground (arith, decode-units 0 n (encode ns) ns (decode-encode ns))

units-contains_char :
    (n : ℕ) (s : String) → contains_char s b'$' ≡ false → contains_char (units n s) b'$' ≡ false
unfolding units contains_char
units-contains_char zero s e = ground arith
units-contains_char (suc n) s e = ground (arith, units-contains_char n s e)

pub encode-contains_char : (b : List ℕ) → contains_char (encode b) b'$' ≡ false
unfolding encode contains_char
encode-contains_char [] = refl
encode-contains_char (n ∷ ns) = units-contains_char n (encode ns) (encode-contains_char ns)

pub distinct : (s t : String) → (s == t) ≡ false → s ≢ t
distinct s t e = ground (arith, eq_iff s t)

-- Thirty-two bytes.
abbrev pub key_for : ℕ → List ℕ
key_for n =
    n ∷ 1 ∷ 2 ∷ 3 ∷ 4 ∷ 5 ∷ 6 ∷ 7 ∷ 8 ∷ 9 ∷ 10 ∷ 11 ∷ 12 ∷ 13 ∷ 14 ∷ 15 ∷ 16 ∷ 17 ∷ 18 ∷ 19 ∷ 20
    ∷ 21 ∷ 22 ∷ 23 ∷ 24 ∷ 25 ∷ 26 ∷ 27 ∷ 28 ∷ 29 ∷ 30 ∷ 31 ∷ []

-- One duration is known: five nanoseconds.
abbrev pub decode_minutes : String → Option ℕ
decode_minutes s = if s == "5ns" then some 5 else none

abbrev pub toy : Platform
toy = record {
  to_lower = λ s. s;
  quoted = λ s. s;
  parse_url = λ s. ok (record {
    scheme = "https";
    opaque = "";
    user = "";
    raw_path = "";
    force_query = false;
    host = "rp.example";
    path = s;
    raw_query = "";
    fragment = "";
  });
  url_string = λ u. String.◌++◌ u.path (String.◌++◌ "?" u.raw_query);
  set_query = λ query name value.
      String.◌++◌ query (String.◌++◌ name (String.◌++◌ "=" (String.◌++◌ value "&")));
  parse_duration = decode_minutes;
  encode_query = λ query. query;
  format_time = λ t. encode (t ∷ []);
  query_escape = λ s. s;
  parse_address = λ s. true;
  equal_fold = λ s t. s == t;
  split_host_port = λ s. some s;
  sha256 = λ s. len s ∷ [];
  raw_url_encode = encode;
  raw_std_encode = encode;
  raw_std_decode = decode_from 0;
  id_key = λ plain salt t m n k. key_for (len plain);
  sign_jwt = λ claims. ok "jwt";
  parse_jwt = λ compact. err invalid;
  rand_read = λ i n. some (i ∷ n ∷ []);
  ulid = λ i. encode (i ∷ []);
}

abbrev pub settings : Config
settings = record {
  env = "development";
  http_addr = ":8080";
  issuer = "https://id.example";
  database_url = "";
  cookie_secure = true;
  dev_generate_keys = true;
  rsa_private_key_path = "";
  store = "memory";
  session_ttl = 1000;
  code_ttl = 60;
  access_ttl = 600;
  refresh_ttl = 6000;
  seed_public_client_id = "";
  seed_public_client_name = "";
  seed_public_redirect = "";
  seed_public_post_logout = "";
  seed_demo_rpb_client_id = "";
  seed_demo_rpb_client_name = "";
  seed_demo_rpb_redirect = "";
  seed_demo_rpb_post_logout = "";
  admin_token = "admin";
  seed_demo_email = "";
  seed_demo_password = "";
  seed_demo_name = "Demo User";
  seed_extra_clients_json = "";
}

abbrev pub ann : User
ann = record {
  id = "u1";
  email = "ann@example.com";
  name = "Ann";
  password_hash = "";
  email_verified = true;
  disabled = false;
  created_at = 1;
}

abbrev pub shop : Client
shop = record {
  id = "shop";
  name = "Shop";
  client_type = "public";
  secret_hash = "";
  redirect_uris = "https://rp.example/cb" ∷ [];
  post_logout_redirect_uris = [];
  front_channel_logout_uri = "";
  back_channel_logout_uri = "";
  token_endpoint_auth = "none";
}

-- A verifier of 43 characters, and its challenge.
abbrev pub verifier : String
verifier = "0123456789012345678901234567890123456789012"

abbrev pub challenge : String
challenge = "1111111111111111111111111111111111111111111."

-- The code "c" of Ann at the shop.
abbrev pub code_row : AuthCode
code_row = record {
  hash = "1.";
  client_id = "shop";
  user_id = "u1";
  redirect_uri = "https://rp.example/cb";
  scopes = "email" ∷ "offline_access" ∷ "openid" ∷ [];
  nonce = "n";
  code_challenge = challenge;
  session_sid = "sid";
  expires_at = 100;
  used = false;
}

abbrev pub refresh_row : String → Bool → RefreshToken
refresh_row hash revoked = record {
  hash = hash;
  family_id = "f";
  client_id = "shop";
  user_id = "u1";
  scopes = "openid" ∷ [];
  session_sid = "sid";
  expires_at = 100;
  revoked = revoked;
}

-- Ann's browser session, whose cookie is "s".
abbrev pub session_row : Session
session_row = record {
  token_hash = "1.";
  user_id = "u1";
  sid = "sid";
  active_org_id = "";
  expires_at = 100;
}

abbrev pub stocked : Store
stocked = record new_store {
  users = ("u1", ann) ∷ [];
  by_email = ("ann@example.com", "u1") ∷ [];
  sessions = ("1.", session_row) ∷ [];
  clients = ("shop", shop) ∷ [];
  codes = ("1.", code_row) ∷ [];
  refresh = ("11.", refresh_row "11." false) ∷ ("111.", refresh_row "111." true) ∷ [];
}

abbrev pub world_at : Store → ℕ → World
world_at s now = record {
  store = s;
  now = now;
  reads = 0;
  made = 0;
  pending = [];
  logins = new 5 minute;
  posted = [];
  sent = [];
}

-- What a form holds, by name.
abbrev pub fields_of : List (String × String) → String → String
fields_of [] name = ""
fields_of ((k, v) ∷ rest) name = if k == name then v else fields_of rest name

abbrev pub empty_request : Request
empty_request = record {
  method = "POST";
  url_path = "/";
  request_uri = "/";
  query = λ name. "";
  form = λ name. "";
  path_value = λ name. "";
  form_parses = true;
  cookie = λ name. none;
  basic_auth = none;
  authorization = "";
  remote_addr = "10.0.0.1";
}

-- The same for what may be missing.
abbrev pub fields_or : List (String × String) → String → Option String
fields_or [] name = none
fields_or ((k, v) ∷ rest) name = if k == name then some v else fields_or rest name
