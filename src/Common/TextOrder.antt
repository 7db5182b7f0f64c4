-- ===== src/Common/TextOrder.antt =====
-- The order of texts is asymmetric.
use Prim.Native.Nat.{Ordering}
use Prim.Native.String.{String, [], ◌∷◌, compare}
use Prim.Native.String.compare
use mathlib.Core.Path.{◌≡◌, ◌∙◌}
use mathlib.Core.Bool.{true, false}
use native.Mathlib.Omega.{arith}
use pf_identity.Common.Branching.{less_text}

compare_lt_swap : (s t : String) → compare s t ≡ Ordering.lt → compare t s ≡ Ordering.gt
compare_lt_swap [] [] h = cc (compare.nil-nil)
compare_lt_swap [] (d ∷ t) h = compare.cons-nil d t
compare_lt_swap (c ∷ s) [] h = cc (compare.cons-nil c s)
compare_lt_swap (c ∷ s) (d ∷ t) h =
    compare.cons-cons d c t s ∙ ground (arith, compare.cons-cons c d s t, compare_lt_swap s t)

pub less_text_asym : (s t : String) → less_text s t ≡ true → less_text t s ≡ false
less_text_asym s t h = ground (arith, compare_lt_swap s t)
