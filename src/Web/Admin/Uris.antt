-- ===== src/Web/Admin/Uris.antt =====
-- What the readers of URIs let into a client: `normalizeRedirects` and `normalizeOptionalURIs` of
-- apps/server/internal/web/admin.go.
use pf_identity.Common.{
  String, ◌≡◌, ◌≢◌, refl, false, ◌||◌, List, [], ◌∷◌, ◌++◌, inl, inr, arith, ◌==◌, eq_iff,
  Bool-cases, All, All-append, member, subst,
}
use pf_identity.Common.Text.{trim_space}
use pf_identity.Domain.{ok, Result-cases}
use pf_identity.OAuth.Redirect.{parse_redirect_uri}
use pf_identity.Platform.{Platform, Url}
use pf_identity.Web.Admin.{gather_uris, normalize_redirects}

-- No text stands twice in the list.
abbrev pub HasNoRepeats : List String → Type 0
HasNoRepeats [] = Unit
HasNoRepeats (x ∷ xs) = (member x xs ≡ false) × HasNoRepeats xs

member-snoc : (x y : String) (xs : List String) → member x (xs ++ y ∷ []) ≡ (member x xs || y == x)
member-snoc x y [] = ground arith
member-snoc x y (z ∷ xs) = ground (arith, member-snoc x y xs)

HasNoRepeats-snoc :
    (x : String) (xs : List String)
    → member x xs ≡ false
    → HasNoRepeats xs
    → HasNoRepeats (xs ++ x ∷ [])
HasNoRepeats-snoc x [] new h = (refl, tt)
HasNoRepeats-snoc x (y ∷ xs) new (here, rest) = (
  ground (arith, member-snoc y x xs, eq_iff x y, eq_iff y x),
  HasNoRepeats-snoc x xs (ground arith) rest,
)

module _ (p : Platform) where
  -- A URI that the parser of redirect URIs accepts.
  abbrev pub Parses : String → Type 0
  Parses uri = (u : Url) × (parse_redirect_uri p uri ≡ ok u)

  gather_uris_sound :
      (field : String) (out raws uris : List String)
      → gather_uris p field out raws ≡ ok uris
      → All Parses out
      → HasNoRepeats out
      → All Parses uris × HasNoRepeats uris
  unfolding gather_uris
  gather_uris_sound field out [] uris e good apart =
      let same : out ≡ uris = ground arith in
      (subst (All Parses) same good, subst HasNoRepeats same apart)
  gather_uris_sound field out (raw ∷ raws) uris e good apart =
      elim (Bool-cases (trim_space raw == "")) [
        | inl blank ↦ gather_uris_sound field out raws uris (ground arith) good apart
        | inr given ↦ elim (Result-cases (parse_redirect_uri p (trim_space raw))) [
          | inr (x, bad) ↦ absurd (ground arith)
          | inl (u, fits) ↦ elim (Bool-cases (member (trim_space raw) out)) [
            | inl seen ↦ gather_uris_sound field out raws uris (ground arith) good apart
            | inr new ↦
                gather_uris_sound field (out ++ trim_space raw ∷ []) raws uris (ground arith)
                  (All-append Parses out (trim_space raw ∷ []) good ((u, fits), tt))
                  (HasNoRepeats-snoc (trim_space raw) out new apart)
          ]
        ]
      ]

  -- The redirect URIs that an administrator gives a client are fit to be registered: where the
  -- list is accepted, what is kept is not empty, has no text twice, and the check on redirect URIs
  -- accepts each of them.
  pub normalize_redirects_sound :
      (raws uris : List String)
      → normalize_redirects p raws ≡ ok uris
      → (uris ≢ []) × All Parses uris × HasNoRepeats uris
  unfolding normalize_redirects
  normalize_redirects_sound [] uris e = absurd (ground arith)
  normalize_redirects_sound (raw ∷ raws) uris e =
      elim (Result-cases (gather_uris p "redirect_uri" [] (raw ∷ raws))) [
        | inr (x, bad) ↦ absurd (ground arith)
        | inl (out, read) ↦
            let (whole, filled) = accepted out read in
            let (good, apart) = gather_uris_sound "redirect_uri" [] (raw ∷ raws) uris whole tt tt in
            (filled, good, apart)
      ]
    where
      accepted :
          (out : List String)
          → gather_uris p "redirect_uri" [] (raw ∷ raws) ≡ ok out
          → (gather_uris p "redirect_uri" [] (raw ∷ raws) ≡ ok uris) × (uris ≢ [])
      accepted [] read = absurd (ground arith)
      accepted (v ∷ vs) read = (ground arith, λ empty. ground arith)
