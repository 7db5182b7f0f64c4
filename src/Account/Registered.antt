-- ===== src/Account/Registered.antt =====
-- An account that was just registered can log in.
use pf_identity.Account.{normalize_email, register, RegisterInput, check_password, authenticate}
use pf_identity.Account.Login.{normalize_email-lower}
use pf_identity.Common.{
  ℕ, String, ◌≡◌, ◌≢◌, refl, false, List, some, inl, inr, ◌==◌, eq_iff, arith, length, Bool-cases,
}
use pf_identity.Common.Text.{trim_space, contains_char}
use pf_identity.Domain.{ok, User, Result-cases}
use pf_identity.Password.{hash, time_cost, memory_kib, threads, key_len}
use pf_identity.Password.RoundTrip.{verify-hash}
use pf_identity.Platform.{Platform}
use pf_identity.Store.Users.{create}
use pf_identity.Store.Users.Index.{get_by_email-create}
use pf_identity.World.{World, new_id}

pub hash-ne-nil :
    (p : Platform) (plain : String) (w w' : World) (h : String)
    → hash p plain w ≡ (w', ok h)
    → plain ≢ ""
unfolding hash
hash-ne-nil p plain w w' h e = ground (arith, eq_iff plain "")

module _ (p : Platform) where
  pub record IsRegistered (input : RegisterInput) (w w' : World) (u : User) : Type 0 where
    pub hashed : World
    pub address : normalize_email p input.email ≡ ok u.email
    pub derived : hash p input.password w ≡ (hashed, ok u.password_hash)
    pub enabled : u.disabled ≡ false
    pub created : create p.to_lower hashed.store u ≡ (w'.store, ok tt)

  register-IsRegistered :
      (input : RegisterInput) (w w' : World) (u : User)
      → register p input w ≡ (w', ok u)
      → IsRegistered input w w' u
  unfolding register new_id
  register-IsRegistered input w w' u e = elim (Result-cases (normalize_email p input.email)) [
    | inr (x, bad) ↦ absurd (ground arith)
    | inl (address, good) ↦ elim (Bool-cases (trim_space input.name == "")) [
      | inl blank ↦ absurd (ground arith)
      | inr named ↦ elim (Result-cases (hash p input.password w).1) [
        | inr (x, bad) ↦ absurd (ground arith)
        | inl (h, derived) ↦ record {
          hashed = (hash p input.password w).0;
          address = ground arith;
          derived = ground arith;
          enabled = ground arith;
          created = ground arith;
        }
      ]
    ]
  ]

module _ (p : Platform) (lower_idem : (e : String) → p.to_lower (p.to_lower e) ≡ p.to_lower e)
    (decode_encode : (b : List ℕ) → p.raw_std_decode (p.raw_std_encode b) ≡ some b)
    (no_dollar : (b : List ℕ) → contains_char (p.raw_std_encode b) b'$' ≡ false)
    (key_length : (plain : String) (salt : List ℕ)
      → length (p.id_key plain salt time_cost memory_kib threads key_len) ≡ key_len) where
  -- After a successful registration the user logs in with the password that was registered and
  -- the e-mail address in any spelling with the same normal form, as the account just made.
  pub authenticate-register :
      (input : RegisterInput) (w w' : World) (u : User) (email : String)
      → register p input w ≡ (w', ok u)
      → normalize_email p email ≡ normalize_email p input.email
      → authenticate p email input.password w' ≡ (w', ok u)
  unfolding authenticate check_password
  authenticate-register input w w' u email e same =
      let r = register-IsRegistered p input w w' u e in
      let named : input.password ≢ "" = hash-ne-nil p input.password _ _ _ r.derived in
      let low = normalize_email-lower p lower_idem input.email u.email r.address in
      let (found, _, _) =
        get_by_email-create p.to_lower lower_idem r.hashed.store w'.store u u u.email r.created refl
          refl in
      let matched =
        (verify-hash p decode_encode no_dollar key_length input.password input.password
          u.password_hash w r.hashed r.derived named).0 in
      let enabled = r.enabled in
      let address = r.address in ground (arith, same, address, low, found, matched, enabled)
