-- ===== src/Web/EndSession/Checked.antt =====
-- What the checks before a logout let through: `logoutClient` and the first half of
-- `handleEndSession` of apps/server/internal/web/end_session.go.
use pf_identity.Common.{
  String, ◌≡◌, ◌≢◌, true, List, [], ◌∷◌, Option, inl, inr, arith, ◌==◌, eq_iff, Bool-cases,
  Option-cases, ◌⊎◌,
}
use pf_identity.Config.{Config}
use pf_identity.Domain.{ok, Client, error_text, Result-cases}
use pf_identity.OAuth.Redirect.{parse_redirect_uri, redirect_uri_exact}
use pf_identity.Oidc.{IdTokenHint}
use pf_identity.Platform.{Platform}
use pf_identity.Store.{Store}
use pf_identity.Store.Clients.{get_client}
use pf_identity.Web.EndSession.{check_logout_uri, check_logout}
use pf_identity.Web.Http.{Response, http_error, next, stop, Flow-cases}
use pf_identity.Web.Logout.{EndSessionReq, audience_client, logout_client_id, logout_client}
use pf_identity.World.{World}

-- A client that a logout finds is stored, unless it is the empty one.
audience_client-stored :
    (s : Store) (uri : String) (aud : List String) (c : Client)
    → audience_client s uri aud ≡ ok c
    → (id : String) × (get_client s id ≡ ok c)
unfolding audience_client
audience_client-stored s uri [] c e = absurd (ground arith)
audience_client-stored s uri (a ∷ aud) c e = elim (Result-cases (get_client s a)) [
  | inr (x, missing) ↦ audience_client-stored s uri aud c (ground arith)
  | inl (d, here) ↦ elim (Bool-cases (redirect_uri_exact uri d.post_logout_redirect_uris)) [
    | inl fits ↦ (a, ground arith)
    | inr apart ↦ audience_client-stored s uri aud c (ground arith)
  ]
]

logout_client-stored :
    (s : Store) (req : EndSessionReq) (hint : Option IdTokenHint) (c : Client)
    → logout_client s req hint ≡ ok c
    → c.id ≢ ""
    → (id : String) × (get_client s id ≡ ok c)
unfolding logout_client
logout_client-stored s req hint c e n = elim (Bool-cases (logout_client_id req hint == "")) [
  | inr named ↦ elim (Result-cases (get_client s (logout_client_id req hint))) [
    | inr (x, missing) ↦ absurd (ground arith)
    | inl (d, here) ↦ (logout_client_id req hint, ground arith)
  ]
  | inl unnamed ↦ elim (Option-cases hint) [
    | inl bare ↦ absurd (ground arith)
    | inr (h, given) ↦ elim (Bool-cases (req.post_logout_redirect_uri == "")) [
      | inl staying ↦ absurd (ground arith)
      | inr leaving ↦
          audience_client-stored s req.post_logout_redirect_uri h.audience c (ground arith)
    ]
  ]
]

module _ (p : Platform) (cfg : Config) where
  -- The URI of a request that passes the checks is none, or one that a stored client registered.
  abbrev pub IsRegistered : Store → String → Type 0
  IsRegistered s uri =
      (id : String) × (c : Client) × (get_client s id ≡ ok c)
      × (redirect_uri_exact uri c.post_logout_redirect_uris ≡ true)

  check_logout_uri-same : (req : EndSessionReq) (w : World) → (check_logout_uri p cfg req w).0 ≡ w
  unfolding check_logout_uri
  check_logout_uri-same req w =
      elim (Result-cases (parse_redirect_uri p req.post_logout_redirect_uri)) [
        | inl (u, fits) ↦ ground arith
        | inr (x, bad) ↦ ground arith
      ]

  pub check_logout-IsRegistered :
      (req : EndSessionReq) (hint : Option IdTokenHint) (w w' : World) (c : Client)
      → check_logout p cfg req hint w ≡ (w', next c)
      → (w' ≡ w)
        × ((req.post_logout_redirect_uri ≡ "") ⊎ IsRegistered w.store req.post_logout_redirect_uri)
  unfolding check_logout
  check_logout-IsRegistered req hint w w' c e = elim (Flow-cases (check_logout_uri p cfg req w)) [
    | inr (x, bad) ↦ absurd (ground arith)
    | inl (u, fits) ↦ elim (Result-cases (logout_client w.store req hint)) [
      | inr (x, unknown) ↦ absurd (ground arith)
      | inl (d, known) ↦ (
        ground (arith, check_logout_uri-same req w),
        elim (Bool-cases (req.post_logout_redirect_uri == "")) [
          | inl staying ↦ inl ((eq_iff _ _).0 staying)
          | inr leaving ↦ elim (Bool-cases (d.id == "")) [
            | inl nobody ↦ absurd (ground (arith, check_logout_uri-same req w))
            | inr somebody ↦
                let (id, here) =
                  logout_client-stored w.store req hint d known
                    (λ blank. ground (arith, eq_iff d.id "")) in
                inr (id, d, here, ground (arith, check_logout_uri-same req w))
          ]
        ],
      )
    ]
  ]

  pub check_logout-refusal :
      (req : EndSessionReq) (hint : Option IdTokenHint) (w w' : World) (x : Response)
      → check_logout p cfg req hint w ≡ (w', stop x)
      → (w' ≡ w) × ((text : String) × (x ≡ http_error 400 text))
  unfolding check_logout check_logout_uri
  check_logout-refusal req hint w w' x e =
      elim (Result-cases (parse_redirect_uri p req.post_logout_redirect_uri)) [
        | inr (y, bad) ↦ elim (Bool-cases (req.post_logout_redirect_uri == "")) [
          | inl staying ↦ looked_up (ground arith)
          | inr leaving ↦ (
            ground arith,
            (
              "post_logout_redirect_uri must be an absolute http(s) URL without a fragment",
              ground arith,
            ),
          )
        ]
        | inl (u, fits) ↦ looked_up (ground arith)
      ]
    where
      looked_up :
          check_logout_uri p cfg req w ≡ (w, next tt)
          → (w' ≡ w) × ((text : String) × (x ≡ http_error 400 text))
      looked_up fine = elim (Result-cases (logout_client w.store req hint)) [
        | inr (y, unknown) ↦ (ground arith, (error_text y, ground arith))
        | inl (d, known) ↦
            (ground arith, ("post_logout_redirect_uri is not registered", ground arith))
      ]
