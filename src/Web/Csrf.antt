-- ===== src/Web/Csrf.antt =====
-- The token against cross-site requests, and the cookies: apps/server/internal/web/csrf.go.
use pf_identity.Common.{
  ℕ, ◌+◌, ◌*◌, String, Bool, false, ◌||◌, [], ◌∷◌, ◌++◌, none, some, ◌==◌, if◌then◌else◌,
}
use pf_identity.Config.{Config}
use pf_identity.Domain.{Time, ok}
use pf_identity.Platform.{Platform}
use pf_identity.Session.{cookie_name}
use pf_identity.Web.Http.{Request, H, set_cookie}
use pf_identity.World.{M, random_token, ◌>>=◌}

abbrev pub csrf_cookie : String
csrf_cookie = "idp_csrf"

-- `2 * time.Hour`
abbrev pub csrf_ttl : ℕ
csrf_ttl = 2 * 3_600_000_000_000

module _ (p : Platform) (cfg : Config) where
  -- Set the cookie that carries the token.
  abbrev send_token : String → M String
  send_token tok w = (
    record w {
      sent =
          w.sent
          ++ record {
            name = csrf_cookie;
            value = tok;
            expires = some (w.now + csrf_ttl);
            secure = cfg.cookie_secure;
          }
            ∷ [];
    },
    ok tok,
  )

  unfoldable pub issue_csrf : M String
  issue_csrf = do tok ← random_token p; send_token tok

-- `ConstantTimeCompare` of texts of one length is their equality.
unfoldable pub check_csrf : Request → Bool
check_csrf r = elim (r.cookie csrf_cookie) [
  | none ↦ false
  | some value ↦
      let form = r.form "csrf" in if value == "" || form == "" then false else value == form
]

unfoldable pub set_session_cookie : String → Time → Bool → H (Unit {0})
set_session_cookie plain exp secure =
    set_cookie (record { name = cookie_name; value = plain; expires = some exp; secure = secure })

unfoldable pub clear_cookie : String → Bool → H (Unit {0})
clear_cookie name secure =
    set_cookie (record { name = name; value = ""; expires = none; secure = secure })
