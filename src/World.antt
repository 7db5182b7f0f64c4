-- ===== src/World.antt =====
-- The state that the server keeps, and the steps of a Go function that returns `(T, error)`.
-- A request is handled at one reading of the clock, `now`; it changes between requests.
use pf_identity.Common.{ℕ, Bool, ◌+◌, String, List, Option, none, some, Dict, if◌then◌else◌, ltb}
use pf_identity.Domain.{Time, Result, ok, err, Error, other}
use pf_identity.Platform.{Platform}
use pf_identity.RateLimit.{Limiter}
use pf_identity.Store.{Store, Updated}

-- `pendingAuth` of apps/server/internal/web/server.go.
pub record PendingAuth : Type 0 where
  pub client_id : String
  pub redirect_uri : String
  pub state : String
  pub nonce : String
  pub scopes : List String
  pub challenge : String
  pub expires_at : Time

-- `http.SetCookie`: the name, the value, and the time of expiry; a cleared cookie has none.
pub record Cookie : Type 0 where
  pub name : String
  pub value : String
  pub expires : Option Time
  pub secure : Bool

pub record World : Type 0 where
  pub store : Store
  pub now : Time
  -- How many calls of `rand.Read` and of the ULID source were made.
  pub reads : ℕ
  pub made : ℕ
  pub pending : Dict PendingAuth
  pub logins : Limiter
  -- The logout tokens that were posted to relying parties, by URI, oldest first.
  pub posted : List (String × String)
  -- The cookies that responses have set, oldest first.
  pub sent : List Cookie

abbrev pub M : Type 0 → Type 0
M A = World → World × Result A

module _ {A : Type 0} where
  abbrev pub pure : A → M A
  pure a w = (w, ok a)

  abbrev pub fail : Error → M A
  fail e w = (w, err e)

  -- A read of the store, and a call that writes it.
  abbrev pub ask : (Store → Result A) → M A
  ask f w = (w, f w.store)

  abbrev pub call : (Store → Updated A) → M A
  call f w = let (s, r) = f w.store in (record w { store = s }, r)

-- `s.Clock.Now()`
abbrev pub clock : M Time
clock w = (w, ok w.now)

infixl 5 ◌>>=◌ ◌>>◌
abbrev pub ◌>>=◌ : {A B : Type 0} → M A → (A → M B) → M B
◌>>=◌ m f w = let (w', r) = m w in elim r [ ok a ↦ f a w' | err e ↦ (w', err e) ]

abbrev pub ◌>>◌ : {A B : Type 0} → M A → M B → M B
m >> k = m >>= λ _. k

module _ (p : Platform) where
  -- `random.Bytes` of apps/server/internal/random/random.go.
  unfoldable pub bytes : ℕ → M (List ℕ)
  bytes n w =
      if ltb n 16
      then (w, err (other "random byte length is below 16"))
      else elim (p.rand_read w.reads n) [
        | none ↦ (record w { reads = w.reads + 1 }, err (other "crypto/rand"))
        | some b ↦ (record w { reads = w.reads + 1 }, ok b)
      ]

  -- `random.Token`
  unfoldable pub random_token : M String
  random_token = do b ← bytes 32; pure (p.raw_url_encode b)

  -- `id.New` of apps/server/internal/id/id.go.
  unfoldable pub new_id : M String
  new_id w = (record w { made = w.made + 1 }, ok (p.ulid w.made))
