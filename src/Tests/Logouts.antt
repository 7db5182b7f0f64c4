-- ===== src/Tests/Logouts.antt =====
-- Runs of the logout endpoint.
use pf_identity.Common.{ℕ, String, ◌≡◌, refl, [], ◌∷◌, some, All, find, List, ◌++◌}
use pf_identity.Common.Sorting.{sort, insert_sorted}
use pf_identity.Domain.{ok, err, not_found, Client}
use pf_identity.OAuth.Pkce.{hash_token}
use pf_identity.Platform.{Url}
use pf_identity.OAuth.Redirect.{
  parse_redirect_uri, check_redirect, redirect_uri_exact, registered_exact,
}
use pf_identity.Session.{lookup, lookup_session, keep_unexpired}
use pf_identity.Store.Clients.{get_client}
use pf_identity.Store.Sessions.{get_session, list_session_clients}
use pf_identity.Store.Users.{get_by_id}
use pf_identity.Tests.Toy.{
  toy, settings, stocked, world_at, shop, ann, fields_of, fields_or, empty_request, encode,
}
use pf_identity.Web.Csrf.{check_csrf, clear_cookie}
use pf_identity.Web.Current.{current_user, current_sid, enabled_user}
use pf_identity.Web.EndSession.{
  end_browser_session, after_logout, logout_answer, finish_logout, check_logout, check_logout_uri,
  end_session, handle_end_session,
}
use pf_identity.Web.EndSession.Checked.{IsRegistered}
use pf_identity.Web.EndSession.Target.{
  handle_end_session-IsRegistered, handle_end_session-asks, finish_logout-ends,
}
use pf_identity.Web.EndSession.Told.{WentTo, notify_back_channel-WentTo}
use pf_identity.Web.Http.{Request, redirect}
use pf_identity.Web.Logout.{
  empty_req, parse_end_session, logout_client, logout_client_id, parse_hint,
}
use pf_identity.Web.Notices.{notify_back_channel, front_channel_iframes}
use pf_identity.World.{World}

-- The shop, with a page to land on after a logout and a back channel, and Ann's session there.
abbrev leaving_shop : Client
leaving_shop = record shop {
  post_logout_redirect_uris = "https://rp.example/bye" ∷ [];
  back_channel_logout_uri = "https://rp.example/back";
}

abbrev busy : World
busy =
    world_at
      (record stocked { clients = ("shop", leaving_shop) ∷ []; sid_rp = ("sid", "shop" ∷ []) ∷ [] })
      10

-- A link that asks for a logout, from a browser without a session, and from Ann's.
abbrev link : Request
link = record empty_request {
  method = "GET";
  query = fields_of (
      ("client_id", "shop")
      ∷ ("post_logout_redirect_uri", "https://rp.example/bye")
      ∷ ("state", "s1")
      ∷ []);
}

abbrev ann_link : Request
ann_link = record link { cookie = fields_or (("idp_session", "s") ∷ []) }

abbrev gone : World
gone = (handle_end_session toy settings link busy).0

abbrev found_code : ℕ
found_code = 302

abbrev bye : String
bye = "https://rp.example/bye?state=s1&"

bye_run : handle_end_session toy settings link busy ≡ (gone, redirect 302 bye)
unfolding handle_end_session end_session parse_end_session parse_hint check_logout check_logout_uri
    parse_redirect_uri check_redirect logout_client logout_client_id get_client find
    redirect_uri_exact registered_exact current_user current_sid finish_logout notify_back_channel
    front_channel_iframes end_browser_session clear_cookie after_logout logout_answer
bye_run = refl

handle_end_session-IsRegistered_example :
    IsRegistered toy settings busy.store "https://rp.example/bye"
    × (found_code ≡ 302)
    × ((u : Url) × (toy.parse_url "https://rp.example/bye" ≡ ok u)
        × (bye ≡ toy.url_string (record u { raw_query = toy.set_query u.raw_query "state" "s1" })))
unfolding parse_end_session
handle_end_session-IsRegistered_example =
    handle_end_session-IsRegistered toy settings link busy gone found_code bye bye_run

signed_in : current_user toy ann_link busy ≡ (busy, some ann)
unfolding current_user lookup lookup_session keep_unexpired get_session hash_token encode find
    enabled_user get_by_id
signed_in = refl

handle_end_session-asks_example :
    ((handle_end_session toy settings ann_link busy).0.store ≡ busy.store)
    × ((handle_end_session toy settings ann_link busy).0.posted ≡ [])
unfolding parse_end_session parse_hint check_csrf
handle_end_session-asks_example =
    handle_end_session-asks toy settings ann_link busy ann signed_in refl refl

finish_logout-ends_example :
    (lookup toy "s"
      (record (finish_logout toy settings ann_link empty_req "/login" busy).0 { now = 20 })).1
    ≡ err not_found
finish_logout-ends_example =
    finish_logout-ends toy settings ann_link busy empty_req "/login" "s" 20 refl

clients_run : list_session_clients busy.store "sid" ≡ ok ("shop" ∷ [])
unfolding list_session_clients find sort insert_sorted
clients_run = refl

-- A state in which something was posted before.
abbrev busier : World
busier = record busy { posted = ("https://rp.example/other", "jwt") ∷ [] }

notify_back_channel-WentTo_example :
    (new : List (String × String)) × ((notify_back_channel toy settings "sid" "u1" busier).posted
      ≡ busier.posted ++ new)
    × All (WentTo toy settings "sid" "u1" busier.store busier.now ("shop" ∷ [])) new
notify_back_channel-WentTo_example =
    notify_back_channel-WentTo toy settings "sid" "u1" ("shop" ∷ []) busier clients_run
