-- ===== src/Common/Maps.antt =====
-- A Go map with text keys, as an association list. The first binding of a key counts; the order
-- of the list is the order in which a `range` loop over the map meets the entries.
use Prim.Native.String.{String}
use mathlib.Core.Path.{◌≡◌, refl}
use mathlib.Core.Option
use mathlib.Core.Option.{Option, none, some}
use mathlib.Core.List.{List, [], ◌∷◌}
use native.Mathlib.Omega.{arith}
use text.Mathlib.Text.{◌==◌}
use text.Mathlib.TextEquality.{eq_iff}
use pf_identity.Common.Branching.{if◌then◌else◌}

abbrev pub Dict {ℓ} : Type ℓ → Type ℓ
Dict V = List (String × V)

module _ {ℓ} {V : Type ℓ} where
  -- `v, ok := m[k]`
  unfoldable pub find : Dict V → String → Option V
  find [] k = none
  find ((j, v) ∷ m) k = if j == k then some v else find m k

  -- `m[k] = v`
  unfoldable pub store_at : Dict V → String → V → Dict V
  store_at [] k v = (k, v) ∷ []
  store_at ((j, w) ∷ m) k v = if j == k then (k, v) ∷ m else (j, w) ∷ store_at m k v

  -- `delete(m, k)`
  unfoldable pub remove : Dict V → String → Dict V
  remove [] k = []
  remove ((j, w) ∷ m) k = let rest = remove m k in if j == k then rest else (j, w) ∷ rest

  -- A loop that writes `f v` over every value.
  unfoldable pub update_all : (V → V) → Dict V → Dict V
  update_all f [] = []
  update_all f ((j, w) ∷ m) = (j, f w) ∷ update_all f m

  -- The values, as a `range` loop meets them.
  unfoldable pub values : Dict V → List V
  values [] = []
  values ((j, w) ∷ m) = w ∷ values m

  -- `m[k]` where a missing key reads as the zero value.
  abbrev pub or_else : Option V → V → V
  or_else none z = z
  or_else (some v) z = v

  pub find-store_at :
      (m : Dict V) (k j : String) (v : V)
      → find (store_at m k v) j ≡ (if k == j then some v else find m j)
  unfolding find store_at
  find-store_at [] k j v = refl
  find-store_at ((i, w) ∷ m) k j v =
      ground (arith, find-store_at m k j v, eq_iff i j, eq_iff k j, eq_iff i k)

  pub find-remove :
      (m : Dict V) (k j : String) → find (remove m k) j ≡ (if k == j then none else find m j)
  unfolding find remove
  find-remove [] k j = ground arith
  find-remove ((i, w) ∷ m) k j =
      ground (arith, find-remove m k j, eq_iff i j, eq_iff k j, eq_iff i k)

  pub find-update_all :
      (f : V → V) (m : Dict V) (j : String) → find (update_all f m) j ≡ Option.map f (find m j)
  unfolding find update_all
  find-update_all f [] j = refl
  find-update_all f ((i, w) ∷ m) j = ground (arith, find-update_all f m j)

pub ruleset dict_laws = (find-store_at, find-remove, find-update_all)
