-- ===== src/Tests/Logins.antt =====
-- Runs of the login form.
use pf_identity.Account.{authenticate, check_password, normalize_email}
use pf_identity.Common.{◌≡◌, refl, true, [], ◌∷◌, find, store_at, remove}
use pf_identity.Common.Text.{trim_space, contains_char, split, split_from}
use pf_identity.OAuth.Pkce.{hash_token}
use pf_identity.Password.{
  verify, phc, parse_phc, check_parts, read_params, same_bytes, cut, parse_uint32, digits_from,
  set_param,
}
use pf_identity.RateLimit.{limited, prune, success, new, minute}
use pf_identity.Session.{start}
use pf_identity.Store.{Store, new_store}
use pf_identity.Store.Sessions.{put_session}
use pf_identity.Store.Users.{get_by_email}
use pf_identity.Tests.People.{registered_user}
use pf_identity.Tests.Toy.{
  toy, settings, world_at, fields_of, fields_or, empty_request, encode, decode_from,
}
use pf_identity.Web.Account.{
  handle_login, login, login_key, login_succeeded, start_session_and_redirect, safe_continue,
}
use pf_identity.Web.Account.Entry.{Entered, handle_login-Entered}
use pf_identity.Web.Csrf.{check_csrf, set_session_cookie}
use pf_identity.Web.Http.{Request, redirect, request_ip}
use pf_identity.World.{World, random_token, bytes}

abbrev login_form : Request
login_form = record empty_request {
  cookie = fields_or (("idp_csrf", "t") ∷ []);
  form =
      fields_of (("csrf", "t") ∷ ("email", "ann@example.com") ∷ ("password", "correct horse") ∷ []);
}

abbrev with_account : Store
with_account = record new_store {
  users = (".", registered_user) ∷ [];
  by_email = ("ann@example.com", ".") ∷ [];
}

abbrev blocked : World
blocked = record (world_at with_account 10) {
  logins = record (new 5 minute) {
    hits = ("10.0.0.1\nann@example.com", 1 ∷ 2 ∷ 3 ∷ 4 ∷ 5 ∷ []) ∷ [];
  };
}

blocked_run : (limited blocked.logins 10 (login_key toy login_form "ann@example.com")).1 ≡ true
unfolding limited prune login_key request_ip trim_space find new store_at
blocked_run = refl

abbrev inside : World
inside = (handle_login toy settings login_form (world_at with_account 10)).0

signed_in_run :
    handle_login toy settings login_form (world_at with_account 10) ≡ (inside, redirect 303 "/")
unfolding handle_login login check_csrf login_key login_succeeded start_session_and_redirect
    safe_continue set_session_cookie start random_token bytes put_session encode hash_token limited
    prune success new find store_at remove trim_space contains_char request_ip authenticate
    check_password normalize_email get_by_email verify parse_phc check_parts read_params same_bytes
    cut parse_uint32 digits_from set_param split split_from decode_from phc
signed_in_run = refl

handle_login-Entered_example : Entered toy settings login_form (world_at with_account 10) inside "/"
handle_login-Entered_example =
    handle_login-Entered toy settings login_form (world_at with_account 10) inside 303 "/"
      signed_in_run
