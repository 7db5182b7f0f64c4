-- ===== src/Common/Splitting.antt =====
-- Splitting a text that was put together with the separator.
use Prim.Native.Char.{Char, code}
use Prim.Native.Nat.{ℕ}
use Prim.Native.String
use Prim.Native.String.{String}
use text.Mathlib.TextLemmas.{nil-append, cons-append, append-nil, append_assoc}
use mathlib.Core.Path.{◌≡◌}
use mathlib.Core.Bool.{false}
use mathlib.Core.List.{[], ◌∷◌}
use native.Mathlib.Omega.{arith}
use pf_identity.Common.Text.{split_from, contains_char, push}

pub split_from_last :
    (sep : ℕ) (part s : String)
    → contains_char s sep ≡ false
    → split_from sep part s ≡ String.◌++◌ part s ∷ []
unfolding split_from contains_char
split_from_last sep part String.[] h = rw (append-nil part)
split_from_last sep part (String.◌∷◌ c s) h =
    let ih = split_from_last sep (push part c) s in
    let glue = append_assoc part (String.◌∷◌ c String.[]) s in
    let cons = cons-append c String.[] s in
    let nil = nil-append s in ground (arith, ih, glue, cons, nil)

-- `c` is the separator.
pub split_from_next :
    (c : Char) (part s t : String)
    → contains_char s (code c) ≡ false
    → split_from (code c) part (String.◌++◌ s (String.◌∷◌ c t))
      ≡ String.◌++◌ part s ∷ split_from (code c) "" t
unfolding split_from contains_char
split_from_next c part String.[] t h =
    rw (nil-append (String.◌∷◌ c t)) (rw (append-nil part) (ground arith))
split_from_next c part (String.◌∷◌ d s) t h =
    let ih = split_from_next c (push part d) s t in
    let glue = append_assoc part (String.◌∷◌ d String.[]) s in
    let cons = cons-append d String.[] s in
    let nil = nil-append s in
    rw (cons-append d s (String.◌∷◌ c t)) (ground (arith, ih, glue, cons, nil))
