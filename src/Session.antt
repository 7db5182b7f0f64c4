-- ===== src/Session.antt =====
-- Browser sessions: apps/server/internal/session/service.go.
pub mod Lifetime
use pf_identity.Common.{◌+◌, String, not, ◌==◌, if◌then◌else◌, ltb}
use pf_identity.Domain.{Time, Duration, Result, ok, err, not_found, Session}
use pf_identity.OAuth.Pkce.{hash_token}
use pf_identity.Platform.{Platform}
use pf_identity.Store.Sessions.{put_session, get_session, delete_session}
use pf_identity.World.{World, M, pure, fail, ask, call, clock, ◌>>=◌, ◌>>◌, random_token}

abbrev pub cookie_name : String
cookie_name = "idp_session"

module _ (p : Platform) where
  unfoldable pub start : Duration → String → M (String × Time)
  start ttl user_id = do
    plain ← random_token p
    sid ← random_token p
    now ← clock
    let exp = now + ttl
    call λ s. put_session s (record {
      token_hash = hash_token p plain;
      user_id = user_id;
      sid = sid;
      active_org_id = "";
      expires_at = exp;
    })
    pure (plain, exp)

  -- What follows the read of the row: an expired one is deleted.
  unfoldable pub keep_unexpired : Session → M Session
  keep_unexpired row w =
      if ltb w.now row.expires_at
      then (w, ok row)
      else (record w { store = (delete_session w.store row.token_hash).0 }, err not_found)

  unfoldable pub lookup_session : String → M Session
  unfolding keep_unexpired
  lookup_session plain =
      if plain == ""
      then fail not_found
      else do row ← ask λ s. get_session s (hash_token p plain); keep_unexpired row

  unfoldable pub lookup : String → M String
  lookup plain = do row ← lookup_session plain; pure row.user_id

  unfoldable pub end : String → M (Unit {0})
  end plain = if plain == "" then pure tt else call λ s. delete_session s (hash_token p plain)
