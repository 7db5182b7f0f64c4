-- ===== src/Tests/Stored.antt =====
-- Runs of the process-local store, and of what stands on it alone.
use pf_identity.Common.{ℕ, String, ◌≡◌, ◌≤◌, refl, false, [], ◌∷◌, some, arith, find}
use pf_identity.Common.Sorting.{sort}
use pf_identity.Domain.{ok, AuditEvent}
use pf_identity.Store.{Store, new_store}
use pf_identity.Store.Audits.{newer}
use pf_identity.Store.Audits.Pages.{HasDistinctIds}
use pf_identity.Store.Audits.Paging.{collect, collect-list_audits}
use pf_identity.Store.History.{takes_code, takes_refresh, run}
use pf_identity.Store.History.SingleUse.{succeeded, code_takes, code_takes_le_one}
use pf_identity.Store.History.Revocation.{refresh_takes, refresh_takes_le_one}
use pf_identity.Store.History.Families.{revoke_family_final}
use pf_identity.Store.Tokens.{take_refresh, revoke_family}
use pf_identity.Tests.Toy.{distinct, stocked, refresh_row}

code_takes_le_one_example :
    code_takes (λ s. s) "1." stocked (takes_code "1." ∷ takes_code "1." ∷ []) ≤ 1
code_takes_le_one_example =
    code_takes_le_one (λ s. s) "1." stocked (takes_code "1." ∷ takes_code "1." ∷ []) (tt, (tt, tt))

refresh_takes_le_one_example :
    refresh_takes (λ s. s) "11." stocked (takes_refresh "11." ∷ takes_refresh "11." ∷ []) ≤ 1
refresh_takes_le_one_example =
    refresh_takes_le_one (λ s. s) "11." stocked (takes_refresh "11." ∷ takes_refresh "11." ∷ [])
      (tt, (tt, tt))

at_11 : find stocked.refresh "11." ≡ some (refresh_row "11." false)
unfolding find
at_11 = refl

revoke_family_final_example :
    succeeded
      (take_refresh (run (λ s. s) (revoke_family stocked "f").0 (takes_refresh "11." ∷ [])) "11.")
    ≡ 0
revoke_family_final_example =
    revoke_family_final (λ s. s) stocked "f" "11." (refresh_row "11." false)
      (takes_refresh "11." ∷ []) at_11 refl (tt, tt)

abbrev pub event : String → ℕ → AuditEvent
event id at = record {
  id = id;
  kind = "login_fail";
  at = at;
  subject = "";
  client_id = "";
  ip = "10.0.0.1";
  note = "";
}

abbrev pub trail : Store
trail = record new_store { audits = event "a" 1 ∷ event "b" 2 ∷ event "c" 3 ∷ [] }

HasDistinctIds-trail : HasDistinctIds trail.audits
HasDistinctIds-trail = (
  distinct "a" "" refl,
  (distinct "b" "a" refl, (distinct "c" "a" refl, tt)),
  (distinct "b" "" refl, (distinct "c" "b" refl, tt), (distinct "c" "" refl, tt, tt)),
)

collect-list_audits_example : collect 4 trail 2 "" ≡ ok (sort newer trail.audits)
collect-list_audits_example = collect-list_audits 3 trail 2 HasDistinctIds-trail (omega arith)
