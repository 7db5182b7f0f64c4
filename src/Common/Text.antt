-- ===== src/Common/Text.antt =====
-- What the source uses of Go's package strings, over the characters of a text.
use Prim.Native.Nat.{ℕ, ◌-◌}
use Prim.Native.Char.{Char, code}
use Prim.Native.String.{String, [], ◌∷◌, ◌++◌, len, slice}
use mathlib.Core.Bool.{Bool, false, ◌&&◌, ◌||◌}
use mathlib.Core.List.{List}
use text.Mathlib.Text.{◌==◌}
use pf_identity.Common.Branching.{if◌then◌else◌, leb, same_number}

-- `unicode.IsSpace`
unfoldable pub is_space : Char → Bool
is_space c =
    let n = code c in
    (leb 9 n && leb n 13)
    || same_number n 32
    || same_number n 0x85
    || same_number n 0xA0
    || same_number n 0x1680
    || (leb 0x2000 n && leb n 0x200a)
    || same_number n 0x2028
    || same_number n 0x2029
    || same_number n 0x202f
    || same_number n 0x205f
    || same_number n 0x3000

unfoldable pub trim_left : String → String
unfolding is_space
trim_left [] = []
trim_left (c ∷ s) = let rest = trim_left s in if is_space c then rest else c ∷ s

unfoldable pub trim_right : String → String
unfolding is_space
trim_right [] = []
trim_right (c ∷ s) = let rest = trim_right s in if rest == "" && is_space c then "" else c ∷ rest

-- `strings.TrimSpace`
unfoldable pub trim_space : String → String
unfolding trim_left trim_right
trim_space s = trim_left (trim_right s)

abbrev pub push : String → Char → String
push s c = s ++ (c ∷ [])

abbrev pub emit : String → List String → List String
emit word words = if word == "" then words else List.◌∷◌ word words

unfoldable pub fields_from : String → String → List String
unfolding is_space
fields_from word [] = emit word List.[]
fields_from word (c ∷ s) =
    let next = emit word (fields_from "" s) in
    let same = fields_from (push word c) s in if is_space c then next else same

-- `strings.Fields`
unfoldable pub fields : String → List String
unfolding fields_from
fields s = fields_from "" s

unfoldable pub split_from : ℕ → String → String → List String
split_from sep part [] = List.◌∷◌ part List.[]
split_from sep part (c ∷ s) =
    let next = List.◌∷◌ part (split_from sep "" s) in
    let same = split_from sep (push part c) s in if same_number (code c) sep then next else same

-- `strings.Split` by one character.
unfoldable pub split : String → ℕ → List String
unfolding split_from
split s sep = split_from sep "" s

-- `strings.Join(items, " ")`
unfoldable pub join_spaced : List String → String
join_spaced List.[] = ""
join_spaced (List.◌∷◌ x List.[]) = x
join_spaced (List.◌∷◌ x (List.◌∷◌ y ys)) = x ++ (" " ++ join_spaced (List.◌∷◌ y ys))

-- `strings.TrimPrefix`
unfoldable pub trim_prefix : String → String → String
trim_prefix s prefix = if slice s 0 (len prefix) == prefix then slice s (len prefix) (len s) else s

-- `strings.HasSuffix` and `strings.TrimSuffix`
unfoldable pub has_suffix : String → String → Bool
has_suffix s suffix = leb (len suffix) (len s) && slice s (len s - len suffix) (len s) == suffix

unfoldable pub trim_suffix : String → String → String
unfolding has_suffix
trim_suffix s suffix = if has_suffix s suffix then slice s 0 (len s - len suffix) else s

-- `strings.Contains` of one character.
unfoldable pub contains_char : String → ℕ → Bool
contains_char [] n = false
contains_char (c ∷ s) n = same_number (code c) n || contains_char s n
