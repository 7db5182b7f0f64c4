-- ===== src/OAuth/Pkce.antt =====
-- PKCE and the hash of bearer secrets: apps/server/internal/oauth/pkce.go and tokenhash.go.
use Prim.Native.String.{len}
use pf_identity.Common.{String, ◌==◌, ◌||◌, not, if◌then◌else◌, ltb}
use pf_identity.Domain.{Result, ok, err, other}
use pf_identity.Platform.{Platform}

abbrev pub challenge_s256 : String
challenge_s256 = "S256"

module _ (p : Platform) where
  unfoldable pub hash_token : String → String
  hash_token raw = p.raw_url_encode (p.sha256 raw)

  unfoldable pub verify_s256 : String → String → Result (Unit {0})
  verify_s256 verifier challenge =
      if verifier == "" || challenge == ""
      then err (other "pkce verifier and challenge are required")
      else if ltb (len verifier) 43 || ltb 128 (len verifier)
      then err (other "pkce verifier length out of spec range")
      else if not (p.raw_url_encode (p.sha256 verifier) == challenge)
      then err (other "pkce verification failed")
      else ok tt
