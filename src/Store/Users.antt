-- ===== src/Store/Users.antt =====
-- Accounts in the process-local store: `Create` to `SetUserDisabled` of
-- apps/server/internal/store/memory/store.go, and `sortUsers`.
pub mod Index
use pf_identity.Common.{
  String, Bool, false, List, none, some, less_text, find, store_at, values, or_else,
}
use pf_identity.Common.Sorting.{sort}
use pf_identity.Domain.{Result, ok, err, conflict, not_found, or_not_found, User}
use pf_identity.Store.{Store, Written}

-- Go's zero `User`, which a missing key of the map reads as.
abbrev pub zero_user : User
zero_user = record {
  id = "";
  email = "";
  name = "";
  password_hash = "";
  email_verified = false;
  disabled = false;
  created_at = 0;
}

-- `strings.ToLower` is the parameter.
module _ (to_lower : String → String) where
  unfoldable pub create : Store → User → Written
  create s u =
      let email = to_lower u.email in
      elim (find s.by_email email) [
        | some _ ↦ (s, err conflict)
        | none ↦ (
          record s {
            users = store_at s.users u.id (record u { email = email });
            by_email = store_at s.by_email email u.id;
          },
          ok tt,
        )
      ]

  unfoldable pub get_by_email : Store → String → Result User
  get_by_email s email = elim (find s.by_email (to_lower email)) [
    | none ↦ err not_found
    | some id ↦ ok (or_else (find s.users id) zero_user)
  ]

unfoldable pub get_by_id : Store → String → Result User
get_by_id s id = or_not_found (find s.users id)

unfoldable pub sort_users : List User → List User
sort_users = sort λ a b. less_text a.email b.email

unfoldable pub list_users : Store → Result (List User)
unfolding sort_users
list_users s = ok (sort_users (values s.users))

unfoldable pub set_user_disabled : Store → String → Bool → Written
set_user_disabled s id disabled = elim (find s.users id) [
  | none ↦ (s, err not_found)
  | some u ↦ (record s { users = store_at s.users id (record u { disabled = disabled }) }, ok tt)
]
