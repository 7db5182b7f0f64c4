-- ===== src/Web/Current.antt =====
-- Who sends a request: `currentUser` and `currentSID` of server.go, `bearer` of token.go and
-- `bearerUser` of orgs.go in apps/server/internal/web.
use Prim.Native.String.{len, slice}
use pf_identity.Common.{String, not, ◌||◌, List, Option, none, some, ◌==◌, if◌then◌else◌, ltb}
use pf_identity.Common.Text.{trim_space}
use pf_identity.Domain.{ok, err, User, AccessToken}
use pf_identity.OAuth.Pkce.{hash_token}
use pf_identity.Platform.{Platform}
use pf_identity.Session.{cookie_name, lookup, lookup_session}
use pf_identity.Store.{Store}
use pf_identity.Store.Tokens.{get_access}
use pf_identity.Store.Users.{get_by_id}
use pf_identity.Web.Http.{Request}
use pf_identity.World.{World}

-- An account that is found and enabled.
unfoldable pub enabled_user : Store → String → Option User
enabled_user s id = elim (get_by_id s id) [
  | err _ ↦ none
  | ok u ↦ if u.disabled then none else some u
]

module _ (p : Platform) where
  unfoldable pub current_user : Request → World → World × Option User
  current_user r w = elim (r.cookie cookie_name) [
    | none ↦ (w, none)
    | some value ↦
        let (w', uid) = lookup p value w in
        elim uid [ err _ ↦ (w', none) | ok id ↦ (w', enabled_user w'.store id) ]
  ]

  unfoldable pub current_sid : Request → World → World × String
  current_sid r w = elim (r.cookie cookie_name) [
    | none ↦ (w, "")
    | some value ↦
        let (w', sess) = lookup_session p value w in
        elim sess [ err _ ↦ (w', "") | ok row ↦ (w', row.sid) ]
  ]

  unfoldable pub bearer : Request → String
  bearer r =
      let h = r.authorization in
      if ltb (len h) 8 || not (p.equal_fold (slice h 0 7) "bearer ")
      then ""
      else trim_space (slice h 7 (len h))

  -- The access token of the header, if it is stored and has not expired.
  unfoldable pub live_token : Request → World → Option AccessToken
  live_token r w = elim (get_access w.store (hash_token p (bearer r))) [
    | err _ ↦ none
    | ok tok ↦ if ltb w.now tok.expires_at then some tok else none
  ]

  unfoldable pub bearer_user : Request → World → Option (User × List String)
  unfolding live_token
  bearer_user r w = if bearer r == "" then none else elim (live_token r w) [
    | none ↦ none
    | some tok ↦ elim (enabled_user w.store tok.user_id) [
      | none ↦ none
      | some u ↦ some (u, tok.scopes)
    ]
  ]
