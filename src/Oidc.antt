-- ===== src/Oidc.antt =====
-- ID tokens and logout tokens: apps/server/internal/oidc/signer.go. Keys and signatures are the
-- JWT library's; this is the choice of the claims.
use pf_identity.Common.{
  ◌+◌, String, Bool, ◌&&◌, List, [], ◌∷◌, some, ◌==◌, if◌then◌else◌, Dict, find, store_at,
}
use pf_identity.Domain.{Time, Duration, Result, ok, err, other, ◌>>=◌}
use pf_identity.Platform.{Platform, Claim, text, texts, flag, time, empty_event}

pub record IdTokenInput : Type 0 where
  pub issuer : String
  pub subject : String
  pub audience : String
  pub nonce : String
  pub email : String
  pub name : String
  pub verified : Bool
  pub sid : String
  pub org_id : String
  pub org_role : String
  pub now : Time
  pub ttl : Duration

-- `if v != "" { b = b.Claim(name, v) }`
abbrev pub optional : String → String → Dict Claim → Dict Claim
optional name v claims = if v == "" then claims else store_at claims name (text v)

unfoldable pub id_token_claims : IdTokenInput → Dict Claim
id_token_claims input = optional "org_role" input.org_role (
    optional "org_id" input.org_id (
      optional "sid" input.sid (
        ("iss", text input.issuer)
        ∷ ("sub", text input.subject)
        ∷ ("aud", texts (input.audience ∷ []))
        ∷ ("iat", time input.now)
        ∷ ("exp", time (input.now + input.ttl))
        ∷ ("nonce", text input.nonce)
        ∷ ("email", text input.email)
        ∷ ("email_verified", flag input.verified)
        ∷ ("name", text input.name)
        ∷ [])))

abbrev pub logout_token_event : String
logout_token_event = "http://schemas.openid.net/event/backchannel-logout"

pub record LogoutTokenInput : Type 0 where
  pub issuer : String
  pub subject : String
  pub audience : String
  pub sid : String
  pub jti : String
  pub now : Time
  pub ttl : Duration

unfoldable pub logout_token_claims : LogoutTokenInput → Dict Claim
logout_token_claims input = optional "sid" input.sid (
    optional "sub" input.subject (
      ("iss", text input.issuer)
      ∷ ("aud", texts (input.audience ∷ []))
      ∷ ("iat", time input.now)
      ∷ ("exp", time (input.now + input.ttl))
      ∷ ("jti", text input.jti)
      ∷ ("events", empty_event logout_token_event)
      ∷ []))

pub record IdTokenHint : Type 0 where
  pub issuer : String
  pub subject : String
  pub audience : List String

-- `tok.Issuer()` and `tok.Audience()`: empty where the claim is missing.
unfoldable pub text_claim : Dict Claim → String → String
text_claim claims name = elim (find claims name) [ some (text v) ↦ v | _ ↦ "" ]

unfoldable pub texts_claim : Dict Claim → String → List String
texts_claim claims name = elim (find claims name) [ some (texts v) ↦ v | _ ↦ [] ]

module _ (p : Platform) where
  unfoldable pub sign_id_token : IdTokenInput → Result String
  unfolding id_token_claims
  sign_id_token input = p.sign_jwt (id_token_claims input)

  unfoldable pub sign_logout_token : LogoutTokenInput → Result String
  unfolding logout_token_claims
  sign_logout_token input =
      if input.subject == "" && input.sid == ""
      then err (other "logout_token needs sub or sid")
      else p.sign_jwt (logout_token_claims input)

  unfoldable pub parse_id_token_hint : String → Result IdTokenHint
  parse_id_token_hint compact = if compact == "" then err (other "empty id_token_hint") else do
    tok ← p.parse_jwt compact
    ok (record {
      issuer = text_claim tok "iss";
      subject = text_claim tok "sub";
      audience = texts_claim tok "aud";
    })
