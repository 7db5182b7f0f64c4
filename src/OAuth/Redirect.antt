-- ===== src/OAuth/Redirect.antt =====
-- Redirect URIs: apps/server/internal/oauth/redirect.go and errors.go.
use pf_identity.Common.{
  String, Bool, true, false, not, ◌&&◌, ◌||◌, List, [], ◌∷◌, ◌==◌, if◌then◌else◌, member,
}
use pf_identity.Domain.{Result, ok, err, other, Error, ◌>>=◌}
use pf_identity.Platform.{Platform, Url}

abbrev pub err_invalid_redirect : Error
err_invalid_redirect = other "redirect_uri must be an absolute http or https URI without a fragment"

-- The loop of `RedirectURIExact`.
unfoldable pub registered_exact : String → List String → Bool
registered_exact requested [] = false
registered_exact requested (a ∷ rest) =
    if requested == a then true else registered_exact requested rest

unfoldable pub redirect_uri_exact : String → List String → Bool
redirect_uri_exact requested registered =
    if requested == "" then false else registered_exact requested registered

abbrev pub blocked_redirect_schemes : List String
blocked_redirect_schemes = "javascript" ∷ "data" ∷ "file" ∷ "vbscript" ∷ []

module _ (p : Platform) where
  -- The checks on a parsed URI.
  unfoldable pub check_redirect : Url → Result Url
  check_redirect u =
      if u.scheme == ""
      then err err_invalid_redirect
      else if not (u.fragment == "")
      then err err_invalid_redirect
      else if member (p.to_lower u.scheme) blocked_redirect_schemes
      then err err_invalid_redirect
      else if u.scheme == "http" || u.scheme == "https"
      then if u.host == "" then err err_invalid_redirect else ok u
      else if u.host == "" && u.path == "" && u.opaque == ""
      then err err_invalid_redirect
      else ok u

  unfoldable pub parse_redirect_uri : String → Result Url
  parse_redirect_uri raw = do u ← p.parse_url raw; check_redirect u
