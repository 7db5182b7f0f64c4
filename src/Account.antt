-- ===== src/Account.antt =====
-- Registration and login: apps/server/internal/account.
pub mod Login
pub mod Registered
use pf_identity.Common.{String, Bool, true, false, not, ◌==◌, if◌then◌else◌, Option, none, some}
use pf_identity.Common.Text.{trim_space, contains_char}
use pf_identity.Domain.{Result, ok, err, other, invalid_creds, Error, User}
use pf_identity.Password.{hash, verify}
use pf_identity.Platform.{Platform}
use pf_identity.Store.Users.{create, get_by_email}
use pf_identity.World.{World, M, pure, fail, ask, call, clock, new_id, ◌>>=◌, ◌>>◌}

pub record RegisterInput : Type 0 where
  pub email : String
  pub password : String
  pub name : String

-- `IsInvalidCredentials`
unfoldable pub is_invalid_credentials : Error → Bool
is_invalid_credentials invalid_creds = true
is_invalid_credentials _ = false

-- A returned pair as a step.
abbrev pub lift : {A : Type 0} → Result A → M A
lift r w = (w, r)

module _ (p : Platform) where
  unfoldable pub normalize_email : String → Result String
  normalize_email raw =
      let e = p.to_lower (trim_space raw) in
      if not (p.parse_address e)
      then err (other "invalid email")
      else if not (contains_char e b'@')
      then err (other "invalid email")
      else ok e

  unfoldable pub register : RegisterInput → M User
  register input = do
    email ← lift (normalize_email input.email)
    let name = trim_space input.name
    if name == "" then fail (other "name is required") else pure tt
    password_hash ← hash p input.password
    id ← new_id p
    now ← clock
    let u : User = record {
      id = id;
      email = email;
      name = name;
      password_hash = password_hash;
      email_verified = false;
      disabled = false;
      created_at = now;
    }
    call λ s. create p.to_lower s u
    pure u

  -- The checks on the account that the store returned.
  unfoldable pub check_password : String → User → Result User
  check_password plain u =
      if u.disabled then err invalid_creds else elim (verify p plain u.password_hash) [
        | err e ↦ err invalid_creds
        | ok matched ↦ if matched then ok u else err invalid_creds
      ]

  unfoldable pub authenticate : String → String → M User
  unfolding check_password
  authenticate email plain w = elim (normalize_email email) [
    | err e ↦ (w, err e)
    | ok e ↦ elim (get_by_email p.to_lower w.store e) [
      | err x ↦ (w, err invalid_creds)
      | ok u ↦ (w, check_password plain u)
    ]
  ]
