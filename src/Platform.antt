-- ===== src/Platform.antt =====
-- What the program takes from outside its own source: the parameters of the model.
-- `strings.ToLower`, `net/url`, `net/mail`, `fmt`'s `%q`, `crypto/sha256`, `encoding/base64` and
-- `golang.org/x/crypto/argon2` and the JWT library `jwx` are functions; `crypto/rand` and the ULID source are read by
-- position, so that every call may return something else.
use pf_identity.Common.{ℕ, String, List, Bool, Option, Dict}
use pf_identity.Domain.{Result}

-- A `url.URL`. `user` is the text of `User`, "" for nil, and `fragment` stands for the fragment in
-- both of its forms.
pub record Url : Type 0 where
  pub scheme : String
  pub opaque : String
  pub user : String
  pub host : String
  pub path : String
  pub raw_path : String
  pub force_query : Bool
  pub raw_query : String
  pub fragment : String

-- A claim of a JWT.
pub data Claim : Type 0 where
  text : String → Claim
  texts : List String → Claim
  flag : Bool → Claim
  time : ℕ → Claim
  -- an object whose one field, with this name, is an empty object
  empty_event : String → Claim

pub record Platform : Type 0 where
  pub to_lower : String → String
  -- `fmt.Sprintf("%q", s)`
  pub quoted : String → String
  -- `url.Parse`, and `(*URL).String`
  pub parse_url : String → Result Url
  pub url_string : Url → String
  -- `u.Query().Encode()`, on the raw query
  pub encode_query : String → String
  -- `q := u.Query(); q.Set(k, v); q.Encode()`, on the raw query
  pub set_query : String → String → String → String
  -- `time.ParseDuration`, in nanoseconds; a negative duration reads as 0
  pub parse_duration : String → Option ℕ
  -- `t.UTC().Format("2006-01-02T15:04:05Z")`
  pub format_time : ℕ → String
  pub query_escape : String → String
  -- whether `mail.ParseAddress` succeeds
  pub parse_address : String → Bool
  -- `strings.EqualFold`
  pub equal_fold : String → String → Bool
  -- the host that `net.SplitHostPort` finds, `none` for an error
  pub split_host_port : String → Option String
  pub sha256 : String → List ℕ
  pub raw_url_encode : List ℕ → String
  pub raw_std_encode : List ℕ → String
  pub raw_std_decode : String → Option (List ℕ)
  -- `argon2.IDKey(password, salt, time, memory, threads, keyLen)`
  pub id_key : String → List ℕ → ℕ → ℕ → ℕ → ℕ → List ℕ
  -- `jwt.Sign` with the server's RSA key, on the claims in the order in which they were set, and
  -- `jwt.Parse` with its public key and without validation
  pub sign_jwt : Dict Claim → Result String
  pub parse_jwt : String → Result (Dict Claim)
  -- the `i`-th call of `rand.Read`, for so many bytes; `none` for an error
  pub rand_read : ℕ → ℕ → Option (List ℕ)
  -- the `i`-th ULID
  pub ulid : ℕ → String
