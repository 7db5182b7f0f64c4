-- ===== src/RateLimit/Window.antt =====
-- The limiter against its meaning: the list of all failures of a key since its last success.
use pf_identity.Common.{
  ℕ, ◌≤◌, String, ◌≡◌, refl, sym, subst, Bool, List, [], ◌∷◌, ◌++◌, ◌==◌, eq_iff, if◌then◌else◌,
  leb, length, find, find-store_at, find-remove, or_else, keep, arith, Bool-cases, inl, inr,
}
use pf_identity.Domain.{Time, Duration}
use pf_identity.RateLimit.{Limiter, new, counts, prune, limited, failure, success}

-- What happens to the limiter: a query, a failure or a success, each for a key at a time.
pub data Event : Type 0 where
  queried failed succeeded : String → Time → Event

unfoldable pub step : Limiter → Event → Limiter
step l (queried k now) = (limited l now k).0
step l (failed k now) = failure l now k
step l (succeeded k now) = success l k

unfoldable pub run : Limiter → List Event → Limiter
run l [] = l
run l (e ∷ es) = run (step l e) es

-- The failures of `k` since its last success, oldest first, after those of `ts`.
unfoldable pub failures : String → List Time → List Event → List Time
failures k ts [] = ts
failures k ts (queried j now ∷ es) = failures k ts es
failures k ts (failed j now ∷ es) = failures k (if j == k then ts ++ now ∷ [] else ts) es
failures k ts (succeeded j now ∷ es) = failures k (if j == k then [] else ts) es

abbrev pub time_of : Event → Time
time_of (queried k now) = now
time_of (failed k now) = now
time_of (succeeded k now) = now

-- The clock does not go back.
abbrev pub IsForward : Time → List Event → Type 0
IsForward t [] = Unit
IsForward t (e ∷ es) = (t ≤ time_of e) × IsForward (time_of e) es

-- The times that the limiter holds for a key.
abbrev pub held : Limiter → String → List Time
held l k = or_else (find l.hits k) []

-- Counted at any time from `now` on, the two lists are the same.
abbrev SameFrom : Duration → Time → List Time → List Time → Type 0
SameFrom window now xs ys =
    (later : Time) → now ≤ later → keep (counts window later) xs ≡ keep (counts window later) ys

keep-append : (p : Time → Bool) (xs ys : List Time) → keep p (xs ++ ys) ≡ keep p xs ++ keep p ys
keep-append p [] ys = refl
keep-append p (x ∷ xs) ys = ground (arith, keep-append p xs ys)

-- Dropping early what no longer counts does not show later.
keep-keep :
    (window now later : ℕ) (xs : List Time)
    → now ≤ later
    → keep (counts window later) (keep (counts window now) xs) ≡ keep (counts window later) xs
keep-keep window now later [] h = refl
keep-keep window now later (x ∷ xs) h = ground (arith, keep-keep window now later xs h)

prune_lem :
    (l : Limiter) (now : Time) (k j : String)
    → ((prune l now k).1 ≡ keep (counts l.window now) (held l k))
      × (held (prune l now k).0 j
          ≡ (if k == j then keep (counts l.window now) (held l k) else held l j))
      × ((prune l now k).0.window ≡ l.window)
      × ((prune l now k).0.max ≡ l.max)
unfolding prune
prune_lem l now k j = go (keep (counts l.window now) (held l k)) refl
  where
    go :
        (out : List Time)
        → keep (counts l.window now) (held l k) ≡ out
        → ((prune l now k).1 ≡ keep (counts l.window now) (held l k))
          × (held (prune l now k).0 j
              ≡ (if k == j then keep (counts l.window now) (held l k) else held l j))
          × ((prune l now k).0.window ≡ l.window)
          × ((prune l now k).0.max ≡ l.max)
    go [] e = ground (arith, find-remove l.hits k j)
    go (t ∷ ts) e = ground (arith, find-store_at l.hits k j (t ∷ ts))

abbrev pub end_time : Time → List Event → Time
end_time t [] = t
end_time t (e ∷ es) = end_time (time_of e) es

step-SameFrom :
    (l : Limiter) (t : Time) (k : String) (ts : List Time) (e : Event)
    → t ≤ time_of e
    → SameFrom l.window t (held l k) ts
    → SameFrom l.window (time_of e) (held (step l e) k) (failures k ts (e ∷ []))
unfolding step limited failure success failures
step-SameFrom l t k ts (queried j now) h same = λ later le.
    ground
      (arith, prune_lem l now j k, keep-keep l.window now later (held l j), same later, eq_iff j k)
step-SameFrom l t k ts (succeeded j now) h same =
    λ later le. ground (arith, find-remove l.hits j k, same later)
step-SameFrom l t k ts (failed j now) h same = λ later le. elim (Bool-cases (j == k)) [
  | inl hit ↦ ground (
    arith,
    eq_iff j k,
    prune_lem l now j k,
    find-store_at (prune l now j).0.hits j k ((prune l now j).1 ++ now ∷ []),
    keep-append (counts l.window later) (keep (counts l.window now) (held l j)) (now ∷ []),
    keep-append (counts l.window later) ts (now ∷ []),
    keep-keep l.window now later (held l j),
    same later,
  )
  | inr miss ↦ ground (
    arith,
    prune_lem l now j k,
    find-store_at (prune l now j).0.hits j k ((prune l now j).1 ++ now ∷ []),
    same later,
  )
]

-- No event changes the settings.
step_settings :
    (l : Limiter) (e : Event) → ((step l e).window ≡ l.window) × ((step l e).max ≡ l.max)
unfolding step limited failure success
step_settings l (queried j now) = ground (arith, prune_lem l now j j)
step_settings l (failed j now) = ground (arith, prune_lem l now j j)
step_settings l (succeeded j now) = (refl, refl)

run_settings :
    (l : Limiter) (es : List Event) → ((run l es).window ≡ l.window) × ((run l es).max ≡ l.max)
unfolding run
run_settings l [] = (refl, refl)
run_settings l (e ∷ es) = ground (arith, step_settings l e, run_settings (step l e) es)

failures-cons :
    (k : String) (ts : List Time) (e : Event) (es : List Event)
    → failures k ts (e ∷ es) ≡ failures k (failures k ts (e ∷ [])) es
unfolding failures
failures-cons k ts (queried j now) es = refl
failures-cons k ts (failed j now) es = refl
failures-cons k ts (succeeded j now) es = refl

run-SameFrom :
    (l : Limiter) (t : Time) (k : String) (ts : List Time) (es : List Event)
    → IsForward t es
    → SameFrom l.window t (held l k) ts
    → SameFrom l.window (end_time t es) (held (run l es) k) (failures k ts es)
unfolding run
run-SameFrom l t k ts [] h same = unfold failures in same
run-SameFrom l t k ts (e ∷ es) (le, h) same =
    let w = (step_settings l e).0 in
    let one = step-SameFrom l t k ts e le same in
    rw (failures-cons k ts e es) (
      subst
        (λ d.
          SameFrom d (end_time (time_of e) es) (held (run (step l e) es) k)
            (failures k (failures k ts (e ∷ [])) es))
        w
        (run-SameFrom (step l e) (time_of e) k (failures k ts (e ∷ [])) es h (
          subst (λ d. SameFrom d (time_of e) (held (step l e) k) (failures k ts (e ∷ []))) (sym w)
            one)))

-- The limiter is a sliding window, whatever it forgets on the way: after any events at times that
-- do not go back, it blocks a key exactly when at least `max` of the failures of that key since
-- its last success lie less than the window before the time of the question.
pub limited-run :
    (max window : ℕ) (es : List Event) (k : String) (t now : Time)
    → IsForward t es
    → end_time t es ≤ now
    → (limited (run (new max window) es) now k).1
      ≡ leb
          (new max window).max
          (length (keep (counts (new max window).window now) (failures k [] es)))
unfolding limited new
limited-run max window es k t now h le =
    let l = new max window in
    let same = run-SameFrom l t k [] es h (λ later _. unfold new find in refl) now le in
    let (w, m) = run_settings l es in ground (arith, prune_lem (run l es) now k k, w, m, same)
