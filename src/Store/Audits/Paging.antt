-- ===== src/Store/Audits/Paging.antt =====
-- Reading the audit trail page by page: what `ListAudits` promises its caller.
use Prim.Native.Nat.{zero}
use pf_identity.Common.{
  ℕ, suc, String, ◌+◌, ◌≤◌, ◌<◌, ◌≡◌, ◌≢◌, refl, ◌∙◌, ap, true, false, List, ◌++◌, arith, ◌==◌,
  eq_iff, length, drop,
}
use native.Mathlib.Decide.{dec_lt}
use pf_identity.Common.Sorting.{sort, length-sort}
use pf_identity.Domain.{Result, ok, err, not_found, ◌>>=◌, AuditEvent, AuditPage}
use pf_identity.Store.{Store}
use pf_identity.Store.Audits.Pages.{
  HasDistinctIds, HasDistinctIds-sort, take-drop, drop_all, page_behind_end, page_last, page_inner,
  page_start-last_id, clamp_pos,
}
use pf_identity.Store.Audits.{newer, page_start, page_from, clamp_audit_limit, list_audits}

-- A caller that follows `next` until it is empty, for at most `fuel` pages.
unfoldable pub collect : ℕ → Store → ℕ → String → Result (List AuditEvent)
collect zero s limit after_id = err not_found
collect (suc fuel) s limit after_id = do
  page ← list_audits s limit after_id
  elim (page.next == "") [
    | true ↦ ok page.items
    | false ↦ do rest ← collect fuel s limit page.next; ok (page.items ++ rest)
  ]

collect_last :
    (fuel : ℕ) (s : Store) (limit : ℕ) (after_id : String) (page : AuditPage)
    → list_audits s limit after_id ≡ ok page
    → page.next ≡ ""
    → collect (suc fuel) s limit after_id ≡ ok page.items
unfolding collect
collect_last fuel s limit after_id page e n = rw (e, collect) (rw n refl)

collect_inner :
    (fuel : ℕ) (s : Store) (limit : ℕ) (after_id : String) (page : AuditPage)
    (rest : List AuditEvent)
    → list_audits s limit after_id ≡ ok page
    → page.next ≢ ""
    → collect fuel s limit page.next ≡ ok rest
    → collect (suc fuel) s limit after_id ≡ ok (page.items ++ rest)
unfolding collect
collect_inner fuel s limit after_id page rest e n more =
    rw (e, collect) (ground (arith, eq_iff page.next "", more))

list_audits_page :
    (s : Store) (limit n : ℕ) (after_id : String)
    → page_start after_id (sort newer s.audits) ≡ ok n
    → list_audits s limit after_id
      ≡ ok (page_from (sort newer s.audits) n (clamp_audit_limit limit))
unfolding list_audits
list_audits_page s limit n after_id e = rw e refl

-- One page, given what the pages behind it bring.
collect_step :
    (fuel : ℕ) (s : Store) (limit n : ℕ) (after_id : String)
    → HasDistinctIds (sort newer s.audits)
    → page_start after_id (sort newer s.audits) ≡ ok n
    → ((m : ℕ) (a : String)
        → n < m
        → m < length (sort newer s.audits)
        → page_start a (sort newer s.audits) ≡ ok m
        → collect fuel s limit a ≡ ok (drop m (sort newer s.audits)))
    → collect (suc fuel) s limit after_id ≡ ok (drop n (sort newer s.audits))
collect_step fuel s limit n after_id h e later =
    let xs = sort newer s.audits in
    let l = clamp_audit_limit limit in
    let pos : 0 < l = clamp_pos limit in
    let page = list_audits_page s limit n after_id e in
    elim (dec_lt n (length xs)) [
      | no past ↦ rw (drop_all n xs (omega arith)) (
          collect_last fuel s limit after_id _ (page ∙ ap ok (page_behind_end xs n l (omega arith)))
            refl)
      | yes inside ↦ elim (dec_lt (n + l) (length xs)) [
        | no full ↦
            collect_last fuel s limit after_id _
              (page ∙ ap ok (page_last xs n l inside (omega arith))) refl
        | yes more ↦
            let (nonempty, start) = page_start-last_id xs n l h pos more in
            collect_inner fuel s limit after_id _ (drop (n + l) xs)
              (page ∙ ap ok (page_inner xs n l more)) nonempty
              (later (n + l) _ (omega arith) more start)
            ∙ ap ok (take-drop n l (n + l) xs refl)
      ]
    ]

collect_from :
    (fuel : ℕ) (s : Store) (limit n : ℕ) (after_id : String)
    → HasDistinctIds (sort newer s.audits)
    → page_start after_id (sort newer s.audits) ≡ ok n
    → length (sort newer s.audits) ≤ n + fuel
    → collect (suc fuel) s limit after_id ≡ ok (drop n (sort newer s.audits))
collect_from zero s limit n after_id h e b =
    collect_step zero s limit n after_id h e λ m a lt inside e'. absurd (omega arith)
collect_from (suc fuel) s limit n after_id h e b =
    collect_step (suc fuel) s limit n after_id h e
      λ m a lt inside e'. collect_from fuel s limit m a h e' (omega arith)

-- A caller that starts without a cursor and follows `next` until it is empty reads the whole
-- trail in its order, every event once, with any limit, if the events have distinct nonempty ids;
-- one request more than there are events is always enough.
pub collect-list_audits :
    (fuel : ℕ) (s : Store) (limit : ℕ)
    → HasDistinctIds s.audits
    → length s.audits ≤ fuel
    → collect (suc fuel) s limit "" ≡ ok (sort newer s.audits)
unfolding page_start
collect-list_audits fuel s limit h b =
    collect_from fuel s limit 0 "" (HasDistinctIds-sort s.audits h) refl
      (omega (arith, length-sort newer s.audits))
