-- ===== src/OAuth/Scope/Normal.antt =====
-- What `NormalizeScopes` promises: exactly the requested names, all of them supported, sorted and
-- without repetition.
use pf_identity.Common.{
  String, ◌≡◌, ◌≢◌, refl, ◌∙◌, Bool, true, false, ◌||◌, List, [], ◌∷◌, ◌++◌, ◌==◌, eq_iff,
  less_text, member, All, All-append, subst, inl, inr, arith, Bool-cases,
}
use pf_identity.Common.Sorting.{sort, insert_sorted, All-sort, IsSorted, sort-IsSorted}
use pf_identity.Common.TextOrder.{less_text_asym}
use pf_identity.Common.Text.{trim_space, fields}
use pf_identity.Domain.{ok, Result-cases}
use pf_identity.OAuth.Scope.{allowed, gather, finish, normalize_scopes}

abbrev pub IsDistinct : List String → Type 0
IsDistinct [] = Unit
IsDistinct (x ∷ xs) = (member x xs ≡ false) × IsDistinct xs

abbrev pub IsAllowed : String → Type 0
IsAllowed s = member s allowed ≡ true

member-append :
    (x : String) (xs ys : List String) → member x (xs ++ ys) ≡ (member x xs || member x ys)
member-append x [] ys = refl
member-append x (z ∷ xs) ys = ground (arith, member-append x xs ys)

IsDistinct-push :
    (xs : List String) (x : String)
    → member x xs ≡ false
    → IsDistinct xs
    → IsDistinct (xs ++ x ∷ [])
IsDistinct-push [] x n d = (refl, tt)
IsDistinct-push (y ∷ ys) x n d = (
  ground (arith, member-append y ys (x ∷ []), eq_iff x y, eq_iff y x),
  IsDistinct-push ys x (ground arith) d.1,
)

gather_sound :
    (quoted : String → String) (out fs r : List String)
    → IsDistinct out
    → All IsAllowed out
    → gather quoted out fs ≡ ok r
    → IsDistinct r × All IsAllowed r × ((x : String) → member x r ≡ (member x out || member x fs))
unfolding gather
gather_sound quoted out [] r d a e =
    let same : out ≡ r = ground arith in
    subst
      (λ q. IsDistinct q × All IsAllowed q × ((x : String) → member x q ≡ (member x out || false)))
      same (d, a, λ x. ground arith)
gather_sound quoted out (s ∷ rest) r d a e = elim (Bool-cases (member s allowed)) [
  | inr unknown ↦ absurd (cc (rw (unknown, gather) at e))
  | inl known ↦ elim (Bool-cases (member s out)) [
    | inl old ↦
        let (d', a', m) = gather_sound quoted out rest r d a (ground arith) in
        (d', a', λ x. ground (arith, m x, eq_iff s x))
    | inr new ↦
        let (d', a', m) =
          gather_sound quoted (out ++ s ∷ []) rest r (IsDistinct-push out s new d)
            (All-append IsAllowed out (s ∷ []) a (known, tt)) (ground arith) in
        (d', a', λ x. ground (arith, m x, member-append x out (s ∷ [])))
  ]
]

gather_complete :
    (quoted : String → String) (out fs : List String)
    → All IsAllowed fs
    → (r : List String) × (gather quoted out fs ≡ ok r)
unfolding gather
gather_complete quoted out [] a = (out, refl)
gather_complete quoted out (s ∷ rest) (known, a) =
    let kept = gather_complete quoted out rest a in
    let grown = gather_complete quoted (out ++ s ∷ []) rest a in
    elim (Bool-cases (member s out)) [
      | inl old ↦ (kept.0, rw (known, gather) (rw old kept.1))
      | inr new ↦ (grown.0, rw (known, gather) (rw new grown.1))
    ]

member-insert_sorted :
    (x y : String) (ys : List String)
    → member x (insert_sorted less_text y ys) ≡ (y == x || member x ys)
unfolding insert_sorted
member-insert_sorted x y [] = refl
member-insert_sorted x y (z ∷ zs) = ground (arith, member-insert_sorted x y zs)

member-sort : (x : String) (xs : List String) → member x (sort less_text xs) ≡ member x xs
unfolding sort
member-sort x [] = refl
member-sort x (y ∷ ys) =
    member-insert_sorted x y (sort less_text ys) ∙ ground (arith, member-sort x ys)

IsDistinct-insert_sorted :
    (y : String) (ys : List String)
    → member y ys ≡ false
    → IsDistinct ys
    → IsDistinct (insert_sorted less_text y ys)
unfolding insert_sorted
IsDistinct-insert_sorted y [] n d = (refl, tt)
IsDistinct-insert_sorted y (z ∷ zs) n d = elim (Bool-cases (less_text z y)) [
  | inl first ↦
      rw (first, insert_sorted)
        (
          ground (arith, member-insert_sorted z y zs, eq_iff y z, eq_iff z y),
          IsDistinct-insert_sorted y zs (ground arith) d.1,
        )
  | inr last ↦ rw (last, insert_sorted) (n, d)
]

IsDistinct-sort : (xs : List String) → IsDistinct xs → IsDistinct (sort less_text xs)
unfolding sort
IsDistinct-sort [] d = tt
IsDistinct-sort (x ∷ xs) d =
    IsDistinct-insert_sorted x (sort less_text xs) (member-sort x xs ∙ d.0) (IsDistinct-sort xs d.1)

-- The meaning of a successful answer.
pub record IsNormal (raw : String) (require_open_id : Bool) (r : List String) : Type 0 where
  pub same_names : (x : String) → member x r ≡ member x (fields raw)
  pub supported : All IsAllowed r
  pub distinct : IsDistinct r
  pub sorted : IsSorted less_text r
  pub open_id : require_open_id ≡ true → member "openid" r ≡ true

finish-eq-ok :
    (require_open_id : Bool) (out r : List String)
    → finish require_open_id out ≡ ok r
    → (sort less_text out ≡ r) × (require_open_id ≡ true → member "openid" out ≡ true)
unfolding finish
finish-eq-ok q out r e = (ground arith, λ h. ground arith)

-- A list of scopes that `normalize_scopes` returns holds exactly the names of the request, each
-- of them supported, without repetition and in order, with "openid" where it is required.
pub normalize_scopes_sound :
    (quoted : String → String) (raw : String) (require_open_id : Bool) (r : List String)
    → normalize_scopes quoted raw require_open_id ≡ ok r
    → IsNormal raw require_open_id r
unfolding normalize_scopes
normalize_scopes_sound quoted raw q r e = elim (Bool-cases (trim_space raw == "")) [
  | inl blank ↦ absurd (cc (rw (blank, normalize_scopes) at e))
  | inr some_text ↦ elim (Result-cases (gather quoted [] (fields raw))) [
    | inr (x, failed) ↦ absurd (ground arith)
    | inl (out, gathered) ↦
        let (d, a, m) = gather_sound quoted [] (fields raw) out tt tt gathered in
        let (same, needs) = finish-eq-ok q out r (ground arith) in
        subst (IsNormal raw q) same (record {
          same_names = λ x. member-sort x out ∙ m x;
          supported = All-sort less_text IsAllowed out a;
          distinct = IsDistinct-sort out d;
          sorted = sort-IsSorted less_text less_text_asym out;
          open_id = λ h. member-sort "openid" out ∙ needs h;
        })
  ]
]

-- And it answers with such a list for every request that names something, only supported scopes,
-- and "openid" where it is required.
pub normalize_scopes_complete :
    (quoted : String → String) (raw : String) (require_open_id : Bool)
    → trim_space raw ≢ ""
    → All IsAllowed (fields raw)
    → (require_open_id ≡ true → member "openid" (fields raw) ≡ true)
    → (r : List String) × (normalize_scopes quoted raw require_open_id ≡ ok r)
unfolding normalize_scopes finish
normalize_scopes_complete quoted raw q named known needs =
    let (out, gathered) = gather_complete quoted [] (fields raw) known in
    let m = (gather_sound quoted [] (fields raw) out tt tt gathered).2 "openid" in
    (sort less_text out, ground (arith, eq_iff (trim_space raw) "", gathered, m, needs))
