-- ===== src/Password.antt =====
-- Password hashes in PHC format: apps/server/internal/password/password.go. The texts of wrapped
-- errors are cut to their fixed part.
pub mod RoundTrip
use Prim.Native.Char.{Char, code}
use Prim.Native.String
use Prim.Native.String.{len}
use pf_identity.Common.{
  ℕ, ◌+◌, ◌-◌, ◌*◌, String, Bool, true, false, not, ◌&&◌, ◌||◌, List, [], ◌∷◌, Option, none, some,
  ◌==◌, if◌then◌else◌, ltb, leb, same_number, length,
}
use pf_identity.Common.Text.{split}
use pf_identity.Domain.{Result, ok, err, other}
use pf_identity.Domain
use pf_identity.Platform.{Platform}
use pf_identity.World.{World, M, pure, fail, bytes, ◌>>=◌, ◌>>◌}

abbrev pub algo : String
algo = "argon2id"

abbrev pub memory_kib : ℕ
memory_kib = 64 * 1024

abbrev pub time_cost : ℕ
time_cost = 1

abbrev pub threads : ℕ
threads = 4

abbrev pub key_len : ℕ
key_len = 32

abbrev pub salt_len : ℕ
salt_len = 16

abbrev pub version_text : String
version_text = "v=19"

abbrev pub params_text : String
params_text = "m=65536,t=1,p=4"

-- `fmt.Sprintf("$%s$v=%d$m=%d,t=%d,p=%d$%s$%s", …)` at the constants above.
unfoldable pub phc : String → String → String
phc salt sum = String.◌++◌ "$" (
    String.◌++◌ algo (
      String.◌++◌ "$" (
        String.◌++◌ version_text (
          String.◌++◌ "$"
            (String.◌++◌ params_text (String.◌++◌ "$" (String.◌++◌ salt (String.◌++◌ "$" sum))))))))

-- What `strconv.ParseUint(v, 10, 32)` reads: a number by its digits.
unfoldable pub digits_from : ℕ → String → Option ℕ
digits_from acc String.[] = some acc
digits_from acc (String.◌∷◌ c s) =
    let n = code c in
    let rest = digits_from (acc * 10 + (n - 48)) s in if leb 48 n && leb n 57 then rest else none

unfoldable pub parse_uint32 : String → Option ℕ
unfolding digits_from
parse_uint32 v = if v == "" then none else elim (digits_from 0 v) [
  | none ↦ none
  | some n ↦ if ltb n 0x1_0000_0000 then some n else none
]

-- `strings.Cut(kv, "=")`
unfoldable pub cut : String → ℕ → Option (String × String)
cut String.[] sep = none
cut (String.◌∷◌ c s) sep =
    let rest = cut s sep in
    if same_number (code c) sep
    then some ("", s)
    else elim rest [ none ↦ none | some (k, v) ↦ some (String.◌∷◌ c k, v) ]

pub record Params : Type 0 where
  pub memory : ℕ
  pub time : ℕ
  pub par : ℕ

-- The `switch` on the name of a parameter.
unfoldable pub set_param : Params → String → ℕ → Params
set_param ps k n =
    if k == "m"
    then record ps { memory = n }
    else if k == "t"
    then record ps { time = n }
    else if k == "p"
    then record ps { par = n }
    else ps

-- The loop over the parameters.
unfoldable pub read_params : Params → List String → Result Params
unfolding set_param cut parse_uint32
read_params ps [] = ok ps
read_params ps (kv ∷ rest) = elim (cut kv b'=') [
  | none ↦ err (other "invalid phc param")
  | some (k, v) ↦ elim (parse_uint32 v) [
    | none ↦ err (other "invalid phc value")
    | some n ↦ read_params (set_param ps k n) rest
  ]
]

pub record Phc : Type 0 where
  pub salt : List ℕ
  pub hash : List ℕ
  pub params : Params

abbrev or_fail : {A : Type 0} → Option A → String → Result A
or_fail none m = err (other m)
or_fail (some a) m = ok a

abbrev incomplete : Params → Bool
incomplete ps =
    same_number ps.memory 0 || same_number ps.time 0 || same_number ps.par 0 || ltb 255 ps.par

-- `subtle.ConstantTimeCompare(got, want) == 1`
unfoldable pub same_bytes : List ℕ → List ℕ → Bool
same_bytes [] [] = true
same_bytes (a ∷ got) (b ∷ want) = same_number a b && same_bytes got want
same_bytes _ _ = false

module _ (p : Platform) where
  unfoldable pub check_parts : List String → Result Phc
  check_parts (a ∷ b ∷ c ∷ d ∷ e ∷ f ∷ []) =
      if not (b == algo)
      then err (other "unsupported password hash format")
      else if not (c == version_text)
      then err (other "unsupported argon2 version")
      else elim (read_params (record { memory = 0; time = 0; par = 0 }) (split d b',')) [
        | err x ↦ err x
        | ok ps ↦
            if incomplete ps
            then err (other "incomplete phc parameters")
            else elim (p.raw_std_decode e) [
              | none ↦ err (other "salt")
              | some salt ↦ elim (p.raw_std_decode f) [
                | none ↦ err (other "hash")
                | some hash ↦ ok (record { salt = salt; hash = hash; params = ps })
              ]
            ]
      ]
  check_parts _ = err (other "unsupported password hash format")

  unfoldable pub parse_phc : String → Result Phc
  unfolding check_parts
  parse_phc encoded = check_parts (split encoded b'$')

  unfoldable pub hash : String → M String
  unfolding phc
  hash plain = if plain == "" then fail (other "password must not be empty") else do
    salt ← bytes p salt_len
    let sum = p.id_key plain salt time_cost memory_kib threads key_len
    pure (phc (p.raw_std_encode salt) (p.raw_std_encode sum))

  unfoldable pub verify : String → String → Result Bool
  unfolding parse_phc same_bytes
  verify plain encoded =
      if plain == "" || encoded == "" then ok false else elim (parse_phc encoded) [
        | err x ↦ err x
        | ok phc ↦ ok (
            same_bytes
              (p.id_key plain phc.salt phc.params.time phc.params.memory phc.params.par
                (length phc.hash))
              phc.hash)
      ]
