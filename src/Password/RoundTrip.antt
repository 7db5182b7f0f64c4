-- ===== src/Password/RoundTrip.antt =====
-- Verifying a password against a hash that was made here.
use Prim.Native.String
use text.Mathlib.TextLemmas.{nil-append, cons-append, cons-ne-nil}
use pf_identity.Common.{
  ℕ, String, ◌≡◌, ◌≢◌, refl, sym, ◌∙◌, ap, true, false, List, [], ◌∷◌, some, inl, inr, eq_iff,
  arith, length, Option-cases,
}
use pf_identity.Common.Splitting.{split_from_last, split_from_next}
use pf_identity.Common.Text.{split, split_from, contains_char}
use pf_identity.Domain.{ok}
use pf_identity.Password.{
  hash, verify, phc, parse_phc, check_parts, read_params, same_bytes, algo, version_text,
  params_text, salt_len, time_cost, memory_kib, threads, key_len,
}
use pf_identity.Platform.{Platform}
use pf_identity.World.{World, bytes}

dollar-append : (t : String) → String.◌++◌ "$" t ≡ String.◌∷◌ "$" t
dollar-append t = cons-append "$" String.[] t ∙ ap (String.◌∷◌ "$") (nil-append t)

split_next :
    (s t : String)
    → contains_char s b'$' ≡ false
    → split_from b'$' "" (String.◌++◌ s (String.◌++◌ "$" t)) ≡ s ∷ split_from b'$' "" t
split_next s t h =
    rw (dollar-append t)
      (split_from_next "$" "" s t h ∙ ap (λ x. x ∷ split_from b'$' "" t) (nil-append s))

split_first : (t : String) → split_from b'$' "" (String.◌++◌ "$" t) ≡ "" ∷ split_from b'$' "" t
split_first t =
    ap (split_from b'$' "") (sym (nil-append (String.◌++◌ "$" t)))
    ∙ split_next "" t (unfold contains_char in refl)

split-phc :
    (salt sum : String)
    → contains_char salt b'$' ≡ false
    → contains_char sum b'$' ≡ false
    → split (phc salt sum) b'$' ≡ "" ∷ algo ∷ version_text ∷ params_text ∷ salt ∷ sum ∷ []
unfolding split phc contains_char
split-phc salt sum h k =
    let t3 = String.◌++◌ salt (String.◌++◌ "$" sum) in
    let t2 = String.◌++◌ params_text (String.◌++◌ "$" t3) in
    let t1 = String.◌++◌ version_text (String.◌++◌ "$" t2) in
    let t0 = String.◌++◌ algo (String.◌++◌ "$" t1) in
    let last = split_from_last b'$' "" sum k ∙ ap (λ x. x ∷ []) (nil-append sum) in
    split_first t0
    ∙ ap (◌∷◌ "") (
        split_next algo t1 refl
        ∙ ap (◌∷◌ algo) (
            split_next version_text t2 refl
            ∙ ap (◌∷◌ version_text) (
                split_next params_text t3 refl
                ∙ ap (◌∷◌ params_text) (split_next salt sum h ∙ ap (◌∷◌ salt) last))))

phc-ne-nil : (salt sum : String) → phc salt sum ≢ ""
unfolding phc
phc-ne-nil salt sum e = cons-ne-nil _ _ (sym (dollar-append _) ∙ e)

same_bytes_refl : (b : List ℕ) → same_bytes b b ≡ true
unfolding same_bytes
same_bytes_refl [] = refl
same_bytes_refl (x ∷ b) = ground (arith, same_bytes_refl b)

module _ (p : Platform)
    (decode_encode : (b : List ℕ) → p.raw_std_decode (p.raw_std_encode b) ≡ some b)
    (no_dollar : (b : List ℕ) → contains_char (p.raw_std_encode b) b'$' ≡ false) where
  parse_phc-phc :
      (salt sum : List ℕ)
      → parse_phc p (phc (p.raw_std_encode salt) (p.raw_std_encode sum))
        ≡ ok (record {
          salt = salt;
          hash = sum;
          params = record { memory = memory_kib; time = time_cost; par = threads };
        })
  unfolding parse_phc read_params split
  parse_phc-phc salt sum =
      ap (check_parts p)
        (split-phc (p.raw_std_encode salt) (p.raw_std_encode sum) (no_dollar salt) (no_dollar sum))
      ∙ rw (decode_encode salt) (rw (decode_encode sum) refl)

  module _
      (key_length : (plain : String) (salt : List ℕ)
        → length (p.id_key plain salt time_cost memory_kib threads key_len) ≡ key_len) where
    -- A text verifies against a hash made here exactly by the comparison of the two derived keys,
    -- with the salt of that hash; so the password itself always verifies.
    pub verify-hash :
        (plain other h : String) (w w' : World)
        → hash p plain w ≡ (w', ok h)
        → other ≢ ""
        → (verify p plain h ≡ ok true)
          × ((salt : List ℕ) × (p.rand_read w.reads salt_len ≡ some salt)
              × (verify p other h
                  ≡ ok (
                      same_bytes
                        (p.id_key other salt time_cost memory_kib threads key_len)
                        (p.id_key plain salt time_cost memory_kib threads key_len))))
    unfolding hash bytes verify
    verify-hash plain other h w w' e given = elim (Option-cases (p.rand_read w.reads salt_len)) [
      | inl failed ↦ absurd (ground arith)
      | inr (salt, drawn) ↦
          let sum = p.id_key plain salt time_cost memory_kib threads key_len in
          let text = phc (p.raw_std_encode salt) (p.raw_std_encode sum) in
          let made : text ≡ h = ground arith in
          let named : plain ≢ "" = ground (arith, eq_iff plain "") in
          let nonempty : text ≢ "" = phc-ne-nil (p.raw_std_encode salt) (p.raw_std_encode sum) in
          let parsed = parse_phc-phc salt sum in
          let size = key_length plain salt in
          (
            ground (arith, eq_iff plain "", eq_iff text "", parsed, size, same_bytes_refl sum),
            (salt, drawn, ground (arith, eq_iff other "", eq_iff text "", parsed, size)),
          )
    ]
