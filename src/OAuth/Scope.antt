-- ===== src/OAuth/Scope.antt =====
-- Scope strings: apps/server/internal/oauth/scope.go.
pub mod Normal
use Prim.Native.String
use pf_identity.Common.{
  String, Bool, true, false, not, ◌&&◌, List, [], ◌∷◌, ◌++◌, ◌==◌, if◌then◌else◌, less_text, member,
}
use pf_identity.Common.Sorting.{sort}
use pf_identity.Common.Text.{trim_space, fields}
use pf_identity.Domain.{Result, ok, err, other, ◌>>=◌}

abbrev pub allowed : List String
allowed = "openid" ∷ "profile" ∷ "email" ∷ "offline_access" ∷ "org" ∷ []

-- What follows the loop of `NormalizeScopes`.
unfoldable pub finish : Bool → List String → Result (List String)
finish require_open_id out =
    if require_open_id && not (member "openid" out)
    then err (other "openid scope is required")
    else ok (sort less_text out)

-- `fmt`'s `%q` is the parameter.
module _ (quoted : String → String) where
  -- The loop over the names. `seen` and `out` of the source hold the same names, so `out` is both.
  unfoldable pub gather : List String → List String → Result (List String)
  gather out [] = ok out
  gather out (s ∷ rest) =
      let skipped = gather out rest in
      let added = gather (out ++ s ∷ []) rest in
      if not (member s allowed)
      then err (other (String.◌++◌ "unsupported scope " (quoted s)))
      else if member s out
      then skipped
      else added

  unfoldable pub normalize_scopes : String → Bool → Result (List String)
  unfolding finish
  normalize_scopes raw require_open_id =
      if trim_space raw == ""
      then err (other "scope is required")
      else do out ← gather [] (fields raw); finish require_open_id out

unfoldable pub contains : List String → String → Bool
contains [] name = false
contains (s ∷ scopes) name = if s == name then true else contains scopes name
