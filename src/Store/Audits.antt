-- ===== src/Store/Audits.antt =====
-- The audit trail in the process-local store: `AppendAudit`, `ListAudits` and `clampAuditLimit` of
-- apps/server/internal/store/memory/store.go. A limit is a number from 0; a negative one, which no
-- caller passes, reads like 0.
pub mod Pages
pub mod Paging
use pf_identity.Common.{
  ℕ, String, suc, ◌+◌, ◌-◌, Bool, true, false, List, [], ◌∷◌, ◌++◌, Option, none, some, ◌==◌,
  if◌then◌else◌, ltb, leb, less_text, length, take, drop,
}
use pf_identity.Common.Sorting.{sort}
use pf_identity.Domain.{Result, ok, err, not_found, ◌>>=◌, AuditEvent, AuditPage}
use pf_identity.Store.{Store, Written}

unfoldable pub append_audit : Store → AuditEvent → Written
append_audit s e = (record s { audits = s.audits ++ e ∷ [] }, ok tt)

unfoldable pub clamp_audit_limit : ℕ → ℕ
clamp_audit_limit limit = if leb limit 0 then 20 else if ltb 100 limit then 100 else limit

-- The order of the trail: newest first, and the greater id first at one instant.
unfoldable pub newer : AuditEvent → AuditEvent → Bool
newer a b = if ltb b.at a.at then true else if ltb a.at b.at then false else less_text b.id a.id

-- The position behind the first event with this id.
unfoldable pub behind : String → List AuditEvent → Option ℕ
behind id [] = none
behind id (e ∷ es) = elim (e.id == id) [
  | true ↦ some 1
  | false ↦ elim (behind id es) [ none ↦ none | some n ↦ some (suc n) ]
]

unfoldable pub page_start : String → List AuditEvent → Result ℕ
unfolding behind
page_start after_id sorted =
    if after_id == ""
    then ok 0
    else elim (behind after_id sorted) [ none ↦ err not_found | some n ↦ ok n ]

unfoldable pub last_id : List AuditEvent → String
last_id [] = ""
last_id (e ∷ []) = e.id
last_id (e ∷ f ∷ es) = last_id (f ∷ es)

unfoldable pub page_from : List AuditEvent → ℕ → ℕ → AuditPage
unfolding last_id
page_from sorted start limit =
    if leb (length sorted) start
    then record { items = []; next = "" }
    else let end = start + limit in
      let items = take (end - start) (drop start sorted) in
      record { items = items; next = if ltb end (length sorted) then last_id items else "" }

unfoldable pub list_audits : Store → ℕ → String → Result AuditPage
unfolding page_start page_from newer clamp_audit_limit
list_audits s limit after_id = do
  let sorted = sort newer s.audits
  start ← page_start after_id sorted
  ok (page_from sorted start (clamp_audit_limit limit))
