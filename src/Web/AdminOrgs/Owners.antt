-- ===== src/Web/AdminOrgs/Owners.antt =====
-- How many owners an organization has, and what a write of one of its members does to that number:
-- `countOrgOwnersCtx` of apps/server/internal/web/admin_orgs.go over the store.
use pf_identity.Common.{
  ℕ, ◌+◌, String, ◌≡◌, refl, Bool, List, [], ◌∷◌, none, some, inl, inr, arith, ◌==◌, eq_iff,
  if◌then◌else◌, Bool-cases, Dict, find, store_at, remove, values, find-store_at, find-remove,
}
use pf_identity.Common.Sorting.{sort, insert_sorted}
use pf_identity.Domain.{OrganizationMembership, org_role_owner}
use pf_identity.Web.AdminOrgs.{count_owners}

-- The keys of a map differ.
abbrev pub IsDistinct : {V : Type 0} → Dict V → Type 0
IsDistinct [] = Unit
IsDistinct ((k, v) ∷ m) = (find m k ≡ none) × IsDistinct m

module _ {V : Type 0} where
  remove-absent : (m : Dict V) (k : String) → find m k ≡ none → remove m k ≡ m
  unfolding find remove
  remove-absent [] k h = refl
  remove-absent ((j, v) ∷ m) k h = ground (arith, remove-absent m k)

  pub store_at-IsDistinct :
      (m : Dict V) (k : String) (v : V) → IsDistinct m → IsDistinct (store_at m k v)
  unfolding find store_at
  store_at-IsDistinct [] k v d = (refl, tt)
  store_at-IsDistinct ((j, w) ∷ m) k v (fresh, d) = elim (Bool-cases (j == k)) [
    | inl same ↦ rw same (ground (arith, eq_iff j k), d)
    | inr apart ↦
        rw apart (
          ground (arith, find-store_at m k j v, eq_iff k j, eq_iff j k),
          store_at-IsDistinct m k v d,
        )
  ]

  pub remove-IsDistinct : (m : Dict V) (k : String) → IsDistinct m → IsDistinct (remove m k)
  unfolding find remove
  remove-IsDistinct [] k d = tt
  remove-IsDistinct ((j, w) ∷ m) k (fresh, d) = elim (Bool-cases (j == k)) [
    | inl same ↦ rw same (remove-IsDistinct m k d)
    | inr apart ↦ rw apart (ground (arith, find-remove m k j), remove-IsDistinct m k d)
  ]

-- One for an owner.
abbrev pub owner : OrganizationMembership → ℕ
owner m = if m.role == org_role_owner then 1 else 0

abbrev pub owners : Dict OrganizationMembership → ℕ
owners ms = count_owners (values ms)

module _ (less : OrganizationMembership → OrganizationMembership → Bool) where
  count_owners-insert :
      (m : OrganizationMembership) (ms : List OrganizationMembership)
      → count_owners (insert_sorted less m ms) ≡ owner m + count_owners ms
  unfolding count_owners insert_sorted
  count_owners-insert m [] = ground arith
  count_owners-insert m (n ∷ ms) = ground (arith, count_owners-insert m ms)

  pub count_owners-sort :
      (ms : List OrganizationMembership) → count_owners (sort less ms) ≡ count_owners ms
  unfolding count_owners sort
  count_owners-sort [] = refl
  count_owners-sort (m ∷ ms) =
      ground (arith, count_owners-insert m (sort less ms), count_owners-sort ms)

pub owners-change :
    (ms : Dict OrganizationMembership) (u : String) (m n : OrganizationMembership)
    → find ms u ≡ some m
    → owners (store_at ms u n) + owner m ≡ owners ms + owner n
unfolding count_owners values store_at find
owners-change [] u m n h = absurd (ground arith)
owners-change ((j, x) ∷ ms) u m n h = ground (arith, owners-change ms u m n)

pub owners-add :
    (ms : Dict OrganizationMembership) (u : String) (n : OrganizationMembership)
    → find ms u ≡ none
    → owners (store_at ms u n) ≡ owners ms + owner n
unfolding count_owners values store_at find
owners-add [] u n h = ground arith
owners-add ((j, x) ∷ ms) u n h = ground (arith, owners-add ms u n)

pub owners-remove :
    (ms : Dict OrganizationMembership) (u : String) (m : OrganizationMembership)
    → IsDistinct ms
    → find ms u ≡ some m
    → owners (remove ms u) + owner m ≡ owners ms
unfolding count_owners values remove find
owners-remove [] u m d h = absurd (ground arith)
owners-remove ((j, x) ∷ ms) u m (fresh, d) h =
    ground (arith, owners-remove ms u m d, remove-absent ms u, eq_iff j u)
