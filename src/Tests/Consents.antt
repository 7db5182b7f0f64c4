-- ===== src/Tests/Consents.antt =====
-- Runs of the authorization endpoint and of the consent form.
use pf_identity.Common.{String, ◌≡◌, refl, false, List, [], ◌∷◌, none, some, find, store_at, ◌⊎◌}
use pf_identity.Domain.{AuthCode}
use pf_identity.OAuth.Pkce.{hash_token}
use pf_identity.Store.{Store}
use pf_identity.Tests.Toy.{
  toy, settings, stocked, world_at, challenge, fields_of, fields_or, empty_request, encode,
}
use pf_identity.Common.{remove}
use pf_identity.Common.Sorting.{sort, insert_sorted}
use pf_identity.Common.Text.{trim_space, fields, join_spaced}
use pf_identity.OAuth.Redirect.{
  parse_redirect_uri, check_redirect, redirect_uri_exact, registered_exact,
}
use pf_identity.OAuth.Scope.{normalize_scopes, gather, finish, contains}
use pf_identity.Session.{lookup, lookup_session, keep_unexpired}
use pf_identity.Store.Audits.{append_audit}
use pf_identity.Store.Clients.{get_client}
use pf_identity.Store.Codes.{put_code}
use pf_identity.Store.Consents.{get_consent, put_consent, consent_key}
use pf_identity.Store.Sessions.{get_session, add_session_client}
use pf_identity.Store.Users.{get_by_id}
use pf_identity.Web.Csrf.{check_csrf}
use pf_identity.Web.Current.{current_user, current_sid, enabled_user}
use pf_identity.Web.Authorize.{
  fail_target, handle_authorize, handle_consent, authorize, check_request, check_client,
  check_scopes, ask_consent, issue_code_redirect, has_consent, covers, oauth_fail, consent,
  take_pending,
}
use pf_identity.Web.Authorize.Grants.{Granted, handle_authorize-Granted}
use pf_identity.Web.Authorize.Directed.{Checked, handle_authorize-Directed}
use pf_identity.Web.Authorize.Parts.{IsFaulty, IsSound, Told, Untold}
use pf_identity.Web.Authorize.Answers.{Answered, handle_consent-Answered}
use pf_identity.Web.Http.{Request, redirect, audit, request_ip}
use pf_identity.World.{World, PendingAuth, random_token, bytes}

abbrev with_consent : Store
with_consent = record stocked {
  consent =
      ("u1|shop", record { user_id = "u1"; client_id = "shop"; scopes = "email" ∷ "openid" ∷ [] })
      ∷ [];
}

abbrev with_cookie : Request
with_cookie = record empty_request {
  cookie = fields_or (("idp_session", "s") ∷ ("idp_csrf", "t") ∷ []);
}

abbrev ask_code : Request
ask_code = record with_cookie {
  query = fields_of (
      ("response_type", "code")
      ∷ ("client_id", "shop")
      ∷ ("redirect_uri", "https://rp.example/cb")
      ∷ ("scope", "openid email")
      ∷ ("code_challenge_method", "S256")
      ∷ ("code_challenge", challenge)
      ∷ []);
}

-- The hash of the first secret that the toy platform draws.
abbrev new_hash : String
new_hash = "1111111111111111111111111111111111."

abbrev new_code : List String → AuthCode
new_code scopes = record {
  hash = new_hash;
  client_id = "shop";
  user_id = "u1";
  redirect_uri = "https://rp.example/cb";
  scopes = scopes;
  nonce = "";
  code_challenge = challenge;
  session_sid = "sid";
  expires_at = 70;
  used = false;
}

unissued : find with_consent.codes new_hash ≡ none
unfolding find
unissued = refl

issued_run :
    find (handle_authorize toy settings ask_code (world_at with_consent 10)).0.store.codes new_hash
    ≡ some (new_code ("email" ∷ "openid" ∷ []))
unfolding handle_authorize authorize check_request check_client check_scopes ask_consent
    issue_code_redirect has_consent covers oauth_fail handle_consent consent take_pending check_csrf
    current_user current_sid enabled_user lookup lookup_session keep_unexpired get_session get_by_id
    get_client get_consent put_consent consent_key put_code add_session_client hash_token encode
    random_token bytes parse_redirect_uri check_redirect redirect_uri_exact registered_exact
    normalize_scopes gather finish trim_space fields sort insert_sorted contains find store_at
    remove audit append_audit request_ip join_spaced
issued_run = refl

handle_authorize-Granted_example :
    Granted toy settings ask_code (world_at with_consent 10) (new_code ("email" ∷ "openid" ∷ []))
handle_authorize-Granted_example =
    handle_authorize-Granted toy settings ask_code (world_at with_consent 10) new_hash
      (new_code ("email" ∷ "openid" ∷ [])) unissued issued_run

abbrev asked : PendingAuth
asked = record {
  client_id = "shop";
  redirect_uri = "https://rp.example/cb";
  state = "";
  nonce = "";
  scopes = "openid" ∷ [];
  challenge = challenge;
  expires_at = 600;
}

abbrev asking : World
asking = record (world_at stocked 10) { pending = ("q", asked) ∷ [] }

abbrev allow : Request
allow = record with_cookie {
  form = fields_of (("csrf", "t") ∷ ("request_id", "q") ∷ ("decision", "allow") ∷ []);
}

allowed_run :
    find (handle_consent toy settings allow asking).0.store.codes new_hash
    ≡ some (new_code ("openid" ∷ []))
unfolding handle_authorize authorize check_request check_client check_scopes ask_consent
    issue_code_redirect has_consent covers oauth_fail handle_consent consent take_pending check_csrf
    current_user current_sid enabled_user lookup lookup_session keep_unexpired get_session get_by_id
    get_client get_consent put_consent consent_key put_code add_session_client hash_token encode
    random_token bytes parse_redirect_uri check_redirect redirect_uri_exact registered_exact
    normalize_scopes gather finish trim_space fields sort insert_sorted contains find store_at
    remove audit append_audit request_ip join_spaced
allowed_run = refl

handle_consent-Answered_example :
    Answered toy settings allow asking
      (handle_consent toy settings allow asking).0
      (new_code ("openid" ∷ []))
handle_consent-Answered_example =
    handle_consent-Answered toy settings allow asking new_hash (new_code ("openid" ∷ [])) unissued
      allowed_run

abbrev bad_request : Request
bad_request = record empty_request {
  query =
      fields_of
        (("response_type", "token") ∷ ("client_id", "nobody") ∷ ("redirect_uri", "/evil") ∷ []);
}

handle_authorize-Directed_example :
    ((code desc : String) × IsFaulty toy settings bad_request code desc
      × ((handle_authorize toy settings bad_request (world_at stocked 10)).0 ≡ world_at stocked 10)
      × (Told toy settings bad_request code desc
            (handle_authorize toy settings bad_request (world_at stocked 10)).1
          ⊎ Untold toy settings bad_request
              (handle_authorize toy settings bad_request (world_at stocked 10)).1))
    ⊎ (IsSound toy settings bad_request
        × Checked toy settings bad_request
            (world_at stocked 10)
            (handle_authorize toy settings bad_request (world_at stocked 10)).1)
handle_authorize-Directed_example =
    handle_authorize-Directed toy settings bad_request (world_at stocked 10)

-- The request of a client that does not exist, sent to a URI that nobody has registered.
unregistered_redirect :
    (handle_authorize toy settings bad_request (world_at stocked 10)).1
    ≡ redirect 302
        "/evil?error=unsupported_response_type&error_description=only response_type=code is supported&"
unfolding handle_authorize authorize check_request oauth_fail fail_target
unregistered_redirect = refl
