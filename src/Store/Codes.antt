-- ===== src/Store/Codes.antt =====
-- Authorization codes in the process-local store: `PutCode` and `TakeCode` of
-- apps/server/internal/store/memory/store.go.
use pf_identity.Common.{String, true, none, some, if◌then◌else◌, find, store_at}
use pf_identity.Domain.{ok, err, not_found, used, AuthCode}
use pf_identity.Store.{Store, Updated, Written}

unfoldable pub put_code : Store → AuthCode → Written
put_code s c = (record s { codes = store_at s.codes c.hash c }, ok tt)

unfoldable pub take_code : Store → String → Updated AuthCode
take_code s hash = elim (find s.codes hash) [
  | none ↦ (s, err not_found)
  | some c ↦
      let c' = record c { used = true } in
      if c.used then (s, err used) else (record s { codes = store_at s.codes hash c' }, ok c')
]
