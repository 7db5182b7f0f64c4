-- ===== src/Store/Tokens.antt =====
-- Refresh and access tokens in the process-local store: `PutRefresh` to `GetAccess` of
-- apps/server/internal/store/memory/store.go.
use pf_identity.Common.{String, true, none, some, ◌==◌, if◌then◌else◌, find, store_at, update_all}
use pf_identity.Domain.{Result, ok, err, not_found, used, or_not_found, RefreshToken, AccessToken}
use pf_identity.Store.{Store, Updated, Written}

unfoldable pub put_refresh : Store → RefreshToken → Written
put_refresh s t = (record s { refresh = store_at s.refresh t.hash t }, ok tt)

unfoldable pub get_refresh : Store → String → Result RefreshToken
get_refresh s hash = or_not_found (find s.refresh hash)

unfoldable pub take_refresh : Store → String → Updated RefreshToken
take_refresh s hash = elim (find s.refresh hash) [
  | none ↦ (s, err not_found)
  | some t ↦
      let t' = record t { revoked = true } in
      if t.revoked
      then (s, err used)
      else (record s { refresh = store_at s.refresh hash t' }, ok t')
]

-- The body of the loop of `RevokeFamily`.
unfoldable pub revoke_member : String → RefreshToken → RefreshToken
revoke_member family_id t = if t.family_id == family_id then record t { revoked = true } else t

unfoldable pub revoke_family : Store → String → Written
revoke_family s family_id =
    (record s { refresh = update_all (revoke_member family_id) s.refresh }, ok tt)

unfoldable pub put_access : Store → AccessToken → Written
put_access s t = (record s { access = store_at s.access t.hash t }, ok tt)

unfoldable pub get_access : Store → String → Result AccessToken
get_access s hash = or_not_found (find s.access hash)
