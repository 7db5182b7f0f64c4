-- ===== src/RateLimit.antt =====
-- The login limiter: apps/server/internal/ratelimit/limiter.go. Its map of failures is the field
-- `hits` of the world, and each call reads the clock once more inside `prune`, at the same time.
pub mod Window
use pf_identity.Common.{
  ℕ, suc, ◌+◌, String, Bool, true, false, List, [], ◌∷◌, ◌++◌, ◌==◌, if◌then◌else◌, ltb, leb,
  length, Dict, find, store_at, remove, or_else, keep,
}
use pf_identity.Domain.{Time, Duration}

pub record Limiter : Type 0 where
  pub hits : Dict (List Time)
  pub window : Duration
  pub max : ℕ

-- `time.Minute`
abbrev pub minute : Duration
minute = 60_000_000_000

unfoldable pub new : ℕ → Duration → Limiter
new max window = record {
  hits = [];
  window = if leb window 0 then minute else window;
  max = if leb max 0 then 5 else max;
}

-- `t.After(now.Add(-window))`, with the window on the other side: the failure at `t` still counts.
abbrev pub counts : Duration → Time → Time → Bool
counts window now t = ltb now (t + window)

-- The failures of the key that still count, and the limiter without the others.
unfoldable pub prune : Limiter → Time → String → Limiter × List Time
prune l now key =
    let out = keep (counts l.window now) (or_else (find l.hits key) []) in
    elim out [
      | [] ↦ (record l { hits = remove l.hits key }, [])
      | t ∷ ts ↦ (record l { hits = store_at l.hits key (t ∷ ts) }, t ∷ ts)
    ]

unfoldable pub limited : Limiter → Time → String → Limiter × Bool
limited l now key = let (l', out) = prune l now key in (l', leb l.max (length out))

unfoldable pub failure : Limiter → Time → String → Limiter
failure l now key =
    let (l', out) = prune l now key in record l' { hits = store_at l'.hits key (out ++ now ∷ []) }

unfoldable pub success : Limiter → String → Limiter
success l key = record l { hits = remove l.hits key }
