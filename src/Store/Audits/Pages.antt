-- ===== src/Store/Audits/Pages.antt =====
-- One page of the audit trail: the cursor, the three kinds of page, and the bounds.
use Prim.Native.Nat.{zero}
use pf_identity.Common.{
  ℕ, suc, String, ◌+◌, ◌-◌, ◌≤◌, ◌<◌, ◌≡◌, ◌≢◌, refl, sym, ap, List, [], ◌∷◌, ◌++◌, some, inl, inr,
  arith, eq_iff, eq_refl, length, take, drop, All, Bool-cases, ◌⊎◌, ltb,
}
use pf_identity.Common.Sorting.{sort, insert_sorted, All-insert_sorted, All-sort}
use pf_identity.Domain.{ok, AuditEvent, AuditPage, Result-cases}
use pf_identity.Store.{Store}
use pf_identity.Store.Audits.{
  newer, behind, page_start, last_id, page_from, clamp_audit_limit, list_audits,
}

-- The ids are distinct, and none is empty.
abbrev pub HasDistinctIds : List AuditEvent → Type 0
HasDistinctIds [] = Unit
HasDistinctIds (e ∷ es) = (e.id ≢ "") × All (λ f. f.id ≢ e.id) es × HasDistinctIds es

HasDistinctIds-insert_sorted :
    (x : AuditEvent) (ys : List AuditEvent)
    → x.id ≢ ""
    → All (λ f. f.id ≢ x.id) ys
    → HasDistinctIds ys
    → HasDistinctIds (insert_sorted newer x ys)
unfolding insert_sorted
HasDistinctIds-insert_sorted x [] n p h = (n, tt, tt)
HasDistinctIds-insert_sorted x (y ∷ ys) n p h = elim (Bool-cases (newer y x)) [
  | inl first ↦
      rw (first, insert_sorted)
        (
          h.0,
          All-insert_sorted newer (λ f. f.id ≢ y.id) x ys (λ e. p.0 (sym e)) h.1,
          HasDistinctIds-insert_sorted x ys n p.1 h.2,
        )
  | inr behind_it ↦ rw (behind_it, insert_sorted) (n, p, h)
]

pub HasDistinctIds-sort :
    (xs : List AuditEvent) → HasDistinctIds xs → HasDistinctIds (sort newer xs)
unfolding sort
HasDistinctIds-sort [] h = tt
HasDistinctIds-sort (x ∷ xs) h =
    HasDistinctIds-insert_sorted x (sort newer xs) h.0 (All-sort newer (λ f. f.id ≢ x.id) xs h.1)
      (HasDistinctIds-sort xs h.2)

-- What holds of all ids holds of the last one of a page.
All-last_id :
    (P : String → Type 0) (n : ℕ) (xs : List AuditEvent)
    → n < length xs
    → All (λ e. P e.id) xs
    → P (last_id (take (suc n) xs))
unfolding last_id
All-last_id P n [] b h = absurd (omega arith)
All-last_id P zero (e ∷ es) b h = h.0
All-last_id P (suc n) (e ∷ []) b h = absurd (omega arith)
All-last_id P (suc n) (e ∷ f ∷ es) b h = All-last_id P n (f ∷ es) (omega arith) h.1

pub HasDistinctIds-nonempty : (xs : List AuditEvent) → HasDistinctIds xs → All (λ e. e.id ≢ "") xs
HasDistinctIds-nonempty [] h = tt
HasDistinctIds-nonempty (x ∷ xs) h = (h.0, HasDistinctIds-nonempty xs h.2)

-- The cursor of a page leads behind the page's last event.
behind-last_id :
    (n : ℕ) (xs : List AuditEvent)
    → HasDistinctIds xs
    → n < length xs
    → behind (last_id (take (suc n) xs)) xs ≡ some (suc n)
unfolding behind last_id
behind-last_id n [] h b = absurd (omega arith)
behind-last_id zero (e ∷ es) h b = ground (arith, eq_refl e.id)
behind-last_id (suc n) (e ∷ []) h b = absurd (omega arith)
behind-last_id (suc n) (e ∷ f ∷ es) h b = ground (
  arith,
  behind-last_id n (f ∷ es) h.2 (omega arith),
  All-last_id (λ i. i ≢ e.id) n (f ∷ es) (omega arith) h.1,
  eq_iff e.id (last_id (take (suc n) (f ∷ es))),
)

-- The last event of the page at `n` is the last one of the first `m` + 1.
last_id-drop :
    (n l m : ℕ) (xs : List AuditEvent)
    → m ≡ n + l
    → n < length xs
    → last_id (take (suc l) (drop n xs)) ≡ last_id (take (suc m) xs)
unfolding last_id
last_id-drop zero l m xs e b = let same : l ≡ m = omega arith in rw same refl
last_id-drop (suc n) l m [] e b = absurd (omega arith)
last_id-drop (suc n) l m (x ∷ []) e b = absurd (omega arith)
last_id-drop (suc n) l zero (x ∷ y ∷ es) e b = absurd (omega arith)
last_id-drop (suc n) l (suc m) (x ∷ y ∷ es) e b =
    last_id-drop n l m (y ∷ es) (omega arith) (omega arith)

pub take-drop :
    (n l m : ℕ) (xs : List AuditEvent) → m ≡ n + l → take l (drop n xs) ++ drop m xs ≡ drop n xs
take-drop zero zero zero xs e = refl
take-drop zero zero (suc m) xs e = absurd (omega arith)
take-drop zero (suc l) zero xs e = absurd (omega arith)
take-drop zero (suc l) (suc m) [] e = refl
take-drop zero (suc l) (suc m) (x ∷ xs) e = ap (◌∷◌ x) (take-drop zero l m xs (omega arith))
take-drop (suc n) l zero xs e = absurd (omega arith)
take-drop (suc n) zero (suc m) [] e = refl
take-drop (suc n) (suc l) (suc m) [] e = refl
take-drop (suc n) l (suc m) (x ∷ xs) e = take-drop n l m xs (omega arith)

take-drop_all :
    (n l : ℕ) (xs : List AuditEvent) → length xs ≤ n + l → take l (drop n xs) ≡ drop n xs
take-drop_all zero zero [] b = refl
take-drop_all zero zero (x ∷ xs) b = absurd (omega arith)
take-drop_all zero (suc l) [] b = refl
take-drop_all zero (suc l) (x ∷ xs) b = ap (◌∷◌ x) (take-drop_all zero l xs (omega arith))
take-drop_all (suc n) zero [] b = refl
take-drop_all (suc n) (suc l) [] b = refl
take-drop_all (suc n) l (x ∷ xs) b = take-drop_all n l xs (omega arith)

pub drop_all : (n : ℕ) (xs : List AuditEvent) → length xs ≤ n → drop n xs ≡ []
drop_all zero [] b = refl
drop_all zero (x ∷ xs) b = absurd (omega arith)
drop_all (suc n) [] b = refl
drop_all (suc n) (x ∷ xs) b = drop_all n xs (omega arith)

-- The three cases of a page: behind the end, the last page, and a page with a successor.
pub page_behind_end :
    (xs : List AuditEvent) (n l : ℕ)
    → length xs ≤ n
    → page_from xs n l ≡ record { items = []; next = "" }
unfolding page_from
page_behind_end xs n l b = ground arith

pub page_last :
    (xs : List AuditEvent) (n l : ℕ)
    → n < length xs
    → length xs ≤ n + l
    → page_from xs n l ≡ record { items = drop n xs; next = "" }
unfolding page_from
page_last xs n l b full = ground (arith, take-drop_all n (n + l - n) xs (omega arith))

pub page_inner :
    (xs : List AuditEvent) (n l : ℕ)
    → n + l < length xs
    → page_from xs n l ≡ record { items = take l (drop n xs); next = last_id (take l (drop n xs)) }
unfolding page_from
page_inner xs n l b = let same : n + l - n ≡ l = omega arith in ground arith

pub clamp_pos : (limit : ℕ) → 0 < clamp_audit_limit limit
unfolding clamp_audit_limit
clamp_pos limit = ground arith

-- The cursor that an inner page hands out starts the next page where this one ended.
pub page_start-last_id :
    (xs : List AuditEvent) (n l : ℕ)
    → HasDistinctIds xs
    → 0 < l
    → n + l < length xs
    → (last_id (take l (drop n xs)) ≢ "")
      × (page_start (last_id (take l (drop n xs))) xs ≡ ok (n + l))
unfolding page_start
page_start-last_id xs n zero h p b = absurd (omega arith)
page_start-last_id xs n (suc l) h p b =
    let same = last_id-drop n l (n + l) xs refl (omega arith) in
    let nonempty =
      All-last_id (λ i. i ≢ "") (n + l) xs (omega arith) (HasDistinctIds-nonempty xs h) in
    let there = behind-last_id (n + l) xs h (omega arith) in
    let next : suc (n + l) ≡ n + suc l = omega arith in
    rw same (nonempty, ground (arith, eq_iff (last_id (take (suc (n + l)) xs)) "", there, next))

length-take : (n : ℕ) (xs : List AuditEvent) → length (take n xs) ≤ n
length-take zero xs = omega arith
length-take (suc n) [] = omega arith
length-take (suc n) (x ∷ xs) = omega (arith, length-take n xs)

length-take-drop :
    (n l : ℕ) (xs : List AuditEvent) → n + l ≤ length xs → length (take l (drop n xs)) ≡ l
length-take-drop zero zero xs b = refl
length-take-drop zero (suc l) [] b = absurd (omega arith)
length-take-drop zero (suc l) (x ∷ xs) b = ap suc (length-take-drop zero l xs (omega arith))
length-take-drop (suc n) zero [] b = refl
length-take-drop (suc n) (suc l) [] b = absurd (omega arith)
length-take-drop (suc n) l (x ∷ xs) b = length-take-drop n l xs (omega arith)

page_from_bounded : (xs : List AuditEvent) (n l : ℕ) → length (page_from xs n l).items ≤ l
unfolding page_from
page_from_bounded xs n l = ground (arith, length-take (n + l - n) (drop n xs))

-- A page with a successor is full.
page_from_full :
    (xs : List AuditEvent) (n l : ℕ)
    → ((page_from xs n l).next ≡ "") ⊎ (length (page_from xs n l).items ≡ l)
unfolding page_from
page_from_full xs n l = elim (Bool-cases (ltb (n + l) (length xs))) [
  | inl inner ↦ inr (ground (arith, page_inner xs n l, length-take-drop n l xs))
  | inr last ↦ inl (ground arith)
]

-- A page never has more than 100 events, nor more than the limit of the request where that is
-- not 0, nor more than 20 where it is 0. A page that hands out a cursor for the next one has
-- exactly so many.
pub list_audits_bounded :
    (s : Store) (limit : ℕ) (after_id : String) (page : AuditPage)
    → list_audits s limit after_id ≡ ok page
    → (length page.items ≤ 100)
      × ((limit ≡ 0) ⊎ (length page.items ≤ limit))
      × ((0 < limit) ⊎ (length page.items ≤ 20))
      × ((page.next ≡ "")
          ⊎ (((limit ≡ 0) × (length page.items ≡ 20))
              ⊎ (((0 < limit) × (limit ≤ 100) × (length page.items ≡ limit))
                  ⊎ ((100 < limit) × (length page.items ≡ 100)))))
unfolding list_audits clamp_audit_limit
list_audits_bounded s limit after_id page e =
    elim (Result-cases (page_start after_id (sort newer s.audits))) [
      | inl (n, start) ↦
          let made = page_from (sort newer s.audits) n (clamp_audit_limit limit) in
          let same : made ≡ page = ground arith in
          let most = page_from_bounded (sort newer s.audits) n (clamp_audit_limit limit) in
          let full = page_from_full (sort newer s.audits) n (clamp_audit_limit limit) in
          (ground arith, ground arith, ground arith, ground arith)
      | inr (x, failed) ↦ absurd (ground arith)
    ]
