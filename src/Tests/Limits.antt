-- ===== src/Tests/Limits.antt =====
-- Runs of the login limiter, of the scopes and of the pages of the audit trail.
use pf_identity.Common.{
  ℕ, String, ◌≡◌, ◌≢◌, ◌≤◌, ◌<◌, ◌⊎◌, refl, true, List, [], ◌∷◌, arith, All, length, keep, member,
  leb,
}
use pf_identity.Common.Sorting.{sort}
use pf_identity.Common.Text.{trim_space, fields}
use pf_identity.Domain.{ok, AuditPage}
use pf_identity.OAuth.Scope.{normalize_scopes, gather, finish}
use pf_identity.OAuth.Scope.Normal.{
  IsNormal, IsAllowed, normalize_scopes_sound, normalize_scopes_complete,
}
use pf_identity.RateLimit.{limited, new, counts}
use pf_identity.RateLimit.Window.{Event, queried, failed, run, failures, limited-run}
use pf_identity.Store.Audits.{list_audits}
use pf_identity.Store.Audits.Pages.{list_audits_bounded}
use pf_identity.Tests.Stored.{trail, event}
use pf_identity.Tests.Toy.{distinct}

-- Two failures within the window, and one that is too old.
abbrev attempts : List Event
attempts = failed "k" 1 ∷ failed "j" 20 ∷ failed "k" 25 ∷ queried "k" 26 ∷ failed "k" 30 ∷ []

limited-run_example :
    (limited (run (new 2 10) attempts) 31 "k").1
    ≡ leb (new 2 10).max (length (keep (counts (new 2 10).window 31) (failures "k" [] attempts)))
limited-run_example = limited-run 2 10 attempts "k" 0 31 (ground arith) (omega arith)

normal_run :
    normalize_scopes (λ s. s) " profile openid profile" true ≡ ok ("openid" ∷ "profile" ∷ [])
unfolding normalize_scopes gather finish trim_space fields sort
normal_run = refl

normalize_scopes_sound_example : IsNormal " profile openid profile" true ("openid" ∷ "profile" ∷ [])
normalize_scopes_sound_example =
    normalize_scopes_sound (λ s. s) " profile openid profile" true ("openid" ∷ "profile" ∷ [])
      normal_run

names_something : trim_space "openid org" ≢ ""
unfolding trim_space
names_something = distinct "openid org" "" refl

All-supported : All IsAllowed (fields "openid org")
unfolding fields
All-supported = (refl, (refl, tt))

names_openid : member "openid" (fields "openid org") ≡ true
unfolding fields
names_openid = refl

normalize_scopes_complete_example :
    (r : List String) × (normalize_scopes (λ s. s) "openid org" true ≡ ok r)
normalize_scopes_complete_example =
    normalize_scopes_complete (λ s. s) "openid org" true names_something All-supported
      (λ required. names_openid)

abbrev two : ℕ
two = 2

abbrev first_page : AuditPage
first_page = record { items = event "c" 3 ∷ event "b" 2 ∷ []; next = "b" }

first_page_run : list_audits trail 2 "" ≡ ok first_page
unfolding list_audits sort
first_page_run = refl

list_audits_bounded_example :
    (length first_page.items ≤ 100)
    × ((two ≡ 0) ⊎ (length first_page.items ≤ two))
    × ((0 < two) ⊎ (length first_page.items ≤ 20))
    × ((first_page.next ≡ "")
        ⊎ (((two ≡ 0) × (length first_page.items ≡ 20))
            ⊎ (((0 < two) × (two ≤ 100) × (length first_page.items ≡ two))
                ⊎ ((100 < two) × (length first_page.items ≡ 100)))))
list_audits_bounded_example = list_audits_bounded trail two "" first_page first_page_run
