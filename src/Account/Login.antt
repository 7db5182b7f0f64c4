-- ===== src/Account/Login.antt =====
-- Who can log in, and what a failed login tells.
use pf_identity.Common.{String, ◌≡◌, true, false, inl, inr, arith, ◌⊎◌}
use pf_identity.Common.Text.{trim_space}
use pf_identity.Account.{normalize_email, check_password, authenticate}
use pf_identity.Domain.{ok, err, invalid_creds, User, Result-cases}
use pf_identity.Password.{verify}
use pf_identity.Platform.{Platform}
use pf_identity.Store.Users.{get_by_email, get_by_id}
use pf_identity.Store.Users.Index.{IsIndexed, get_by_email_sound}
use pf_identity.World.{World}

module _ (p : Platform) (lower_idem : (e : String) → p.to_lower (p.to_lower e) ≡ p.to_lower e) where
  pub normalize_email-lower : (raw e : String) → normalize_email p raw ≡ ok e → p.to_lower e ≡ e
  unfolding normalize_email
  normalize_email-lower raw e h = ground (arith, lower_idem (trim_space raw))

  -- Only the owner of an enabled account logs in: a successful login changes nothing, and gives
  -- the one account under the normalized address, which is enabled, with its password verified.
  pub authenticate_sound :
      (email plain e : String) (w w' : World) (u : User)
      → IsIndexed p.to_lower w.store
      → normalize_email p email ≡ ok e
      → authenticate p email plain w ≡ (w', ok u)
      → (w' ≡ w)
        × (u.email ≡ e)
        × (get_by_id w.store u.id ≡ ok u)
        × (u.disabled ≡ false)
        × (verify p plain u.password_hash ≡ ok true)
  unfolding authenticate
  authenticate_sound email plain e w w' u v ne h =
      elim (Result-cases (get_by_email p.to_lower w.store e)) [
        | inr (x, missing) ↦ absurd (ground arith)
        | inl (found, here) ↦
            let same : found ≡ u = ground arith in
            let (address, by_id) =
              get_by_email_sound p.to_lower lower_idem w.store e found v here in
            (
              ground arith,
              ground (arith, address, normalize_email-lower email e ne),
              ground (arith, by_id),
              ground arith,
              ground arith,
            )
      ]

  -- A failed login tells nothing about accounts: for every address of the right form the answer
  -- to an unknown address, a disabled account, a wrong password and a broken hash is one error.
  pub authenticate_uniform :
      (email plain e : String) (w : World)
      → normalize_email p email ≡ ok e
      → (authenticate p email plain w ≡ (w, err invalid_creds))
        ⊎ ((u : User) × (authenticate p email plain w ≡ (w, ok u)))
  unfolding authenticate check_password
  authenticate_uniform email plain e w ne =
      elim (Result-cases (get_by_email p.to_lower w.store e)) [
        | inr (x, missing) ↦ inl (ground arith)
        | inl (u, here) ↦ elim (Result-cases (check_password p plain u)) [
          | inl (v, passed) ↦ inr (v, ground arith)
          | inr (x, failed) ↦ inl (ground arith)
        ]
      ]
