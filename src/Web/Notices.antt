-- ===== src/Web/Notices.antt =====
-- How the clients of a session are told of its end: `frontChannelIFrames` and `notifyBackChannel`
-- of apps/server/internal/web/end_session.go. What a relying party answers to a posted logout token
-- is ignored by the source, so a post is an entry of `posted`.
use pf_identity.Common.{
  String, List, [], ◌∷◌, ◌++◌, Option, none, some, ◌==◌, if◌then◌else◌, member,
}
use pf_identity.Config.{Config}
use pf_identity.Domain.{ok, err, Client, Duration}
use pf_identity.OAuth.Redirect.{parse_redirect_uri}
use pf_identity.Oidc.{sign_logout_token}
use pf_identity.Platform.{Platform}
use pf_identity.Store.{Store}
use pf_identity.Store.Clients.{get_client}
use pf_identity.Store.Sessions.{list_session_clients}
use pf_identity.World.{World, random_token}

-- `2 * time.Minute`
abbrev pub logout_ttl : Duration
logout_ttl = 120_000_000_000

module _ (p : Platform) (cfg : Config) where
  -- The frame of a client that is told of the logout in the browser, if it has one.
  unfoldable pub frame_of : Store → String → String → Option String
  frame_of s sid id = elim (get_client s id) [
    | err _ ↦ none
    | ok c ↦
        if c.front_channel_logout_uri == ""
        then none
        else elim (p.parse_url c.front_channel_logout_uri) [
          | err _ ↦ none
          | ok u ↦ some (
              p.url_string (record u {
                raw_query = p.set_query (p.set_query u.raw_query "iss" cfg.issuer) "sid" sid;
              }))
        ]
  ]

  -- The loop of `frontChannelIFrames`. `seen` and `out` hold the same texts, so `out` is both.
  unfoldable pub gather_frames : Store → String → List String → List String → List String
  unfolding frame_of
  gather_frames s sid out [] = out
  gather_frames s sid out (id ∷ ids) =
      gather_frames s sid
        (elim (frame_of s sid id) [
          | none ↦ out
          | some src ↦ if member src out then out else out ++ src ∷ []
        ])
        ids

  unfoldable pub front_channel_iframes : Store → String → List String
  unfolding gather_frames
  front_channel_iframes s sid =
      if sid == ""
      then []
      else elim (list_session_clients s sid) [ err _ ↦ [] | ok ids ↦ gather_frames s sid [] ids ]

  -- The token for one client, which is posted to it; a failure leaves the client out.
  unfoldable pub post_logout : String → String → Client → World → World
  post_logout sid subject c w =
      let (v, jti) = random_token p w in
      elim jti [
        | err _ ↦ v
        | ok j ↦
            elim (sign_logout_token p (record {
              issuer = cfg.issuer;
              subject = subject;
              audience = c.id;
              sid = sid;
              jti = j;
              now = v.now;
              ttl = logout_ttl;
            })) [
              | err _ ↦ v
              | ok tok ↦ record v { posted = v.posted ++ (c.back_channel_logout_uri, tok) ∷ [] }
            ]
      ]

  -- The body of the loop of `notifyBackChannel`.
  unfoldable pub notify_client : String → String → String → World → World
  unfolding post_logout
  notify_client sid subject id w = elim (get_client w.store id) [
    | err _ ↦ w
    | ok c ↦
        if c.back_channel_logout_uri == ""
        then w
        else elim (parse_redirect_uri p c.back_channel_logout_uri) [
          | err _ ↦ w
          | ok _ ↦ post_logout sid subject c w
        ]
  ]

  unfoldable pub notify_all : String → String → List String → World → World
  unfolding notify_client
  notify_all sid subject [] w = w
  notify_all sid subject (id ∷ ids) w = notify_all sid subject ids (notify_client sid subject id w)

  unfoldable pub notify_back_channel : String → String → World → World
  unfolding notify_all
  notify_back_channel sid subject w =
      if sid == "" then w else elim (list_session_clients w.store sid) [
        | err _ ↦ w
        | ok ids ↦ notify_all sid subject ids w
      ]
