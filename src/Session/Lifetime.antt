-- ===== src/Session/Lifetime.antt =====
-- A session from its start to its end: what the cookie gives access to, and for how long.
use pf_identity.Common.{
  ◌+◌, ◌≤◌, ◌<◌, String, ◌≡◌, ◌≢◌, refl, some, none, inl, inr, ◌==◌, eq_iff, eq_refl, arith, ltb,
  if◌then◌else◌, find, find-store_at, find-remove, Option-cases, Bool-cases,
}
use pf_identity.Domain.{Time, Duration, ok, err, not_found, Session}
use pf_identity.OAuth.Pkce.{hash_token}
use pf_identity.Platform.{Platform}
use pf_identity.Session.{start, lookup_session, lookup, end}
use pf_identity.Store.{Store}
use pf_identity.Store.Sessions.{put_session, get_session, delete_session}
use pf_identity.World.{World, random_token, bytes}

delete_session-find :
    (s : Store) (hash k : String)
    → find (delete_session s hash).0.sessions k ≡ (if hash == k then none else find s.sessions k)
unfolding delete_session
delete_session-find s hash k = ground (arith, find-remove s.sessions hash k)

module _ (p : Platform) where
  -- A row that `lookup_session` returns is the one stored under the hash of the cookie, and it has
  -- not expired; the lookup then changes nothing.
  pub lookup_session_sound :
      (plain : String) (w w' : World) (row : Session)
      → lookup_session p plain w ≡ (w', ok row)
      → (find w.store.sessions (hash_token p plain) ≡ some row)
        × (w.now < row.expires_at)
        × (w' ≡ w)
  unfolding lookup_session get_session
  lookup_session_sound plain w w' row e = ground arith

  -- An unexpired row is found, again and again.
  lookup_session_found :
      (plain : String) (w : World) (row : Session)
      → plain ≢ ""
      → find w.store.sessions (hash_token p plain) ≡ some row
      → w.now < row.expires_at
      → lookup_session p plain w ≡ (w, ok row)
  unfolding lookup_session get_session
  lookup_session_found plain w row n e lt = ground (arith, eq_iff plain "")

  -- A row whose time has come is refused, and gone from then on: a second lookup, at any time,
  -- finds nothing either.
  pub lookup_session_expired :
      (plain : String) (w : World) (row : Session) (later : Time)
      → find w.store.sessions (hash_token p plain) ≡ some row
      → row.token_hash ≡ hash_token p plain
      → row.expires_at ≤ w.now
      → ((lookup_session p plain w).1 ≡ err not_found)
        × ((lookup_session p plain (record (lookup_session p plain w).0 { now = later })).1
            ≡ err not_found)
  unfolding lookup_session get_session
  lookup_session_expired plain w row later e same le = elim (Bool-cases (plain == "")) [
    | inl blank ↦ ground arith
    | inr given ↦ ground (
      arith,
      delete_session-find w.store row.token_hash (hash_token p plain),
      eq_iff row.token_hash (hash_token p plain),
    )
  ]

  start-row :
      (ttl : Duration) (user_id : String) (w w' : World) (plain : String) (exp : Time)
      → start p ttl user_id w ≡ (w', ok (plain, exp))
      → (exp ≡ w.now + ttl)
        × (w'.now ≡ w.now)
        × ((row : Session) × (find w'.store.sessions (hash_token p plain) ≡ some row)
            × (row.user_id ≡ user_id)
            × (row.expires_at ≡ exp)
            × (row.token_hash ≡ hash_token p plain))
  unfolding start random_token bytes put_session
  start-row ttl user_id w w' plain exp e = elim (Option-cases (p.rand_read w.reads 32)) [
    | inl none_first ↦ absurd (ground arith)
    | inr (b, first) ↦ elim (Option-cases (p.rand_read (w.reads + 1) 32)) [
      | inl none_second ↦ absurd (ground arith)
      | inr (c, second) ↦
          let row : Session = record {
            token_hash = hash_token p plain;
            user_id = user_id;
            sid = p.raw_url_encode c;
            active_org_id = "";
            expires_at = w.now + ttl;
          } in
          (
            ground arith,
            ground arith,
            (
              row,
              ground (
                arith,
                find-store_at w.store.sessions (hash_token p plain) (hash_token p plain) row,
                eq_refl (hash_token p plain),
              ),
              refl,
              ground arith,
              refl,
            ),
          )
    ]
  ]

  -- A started session is good for its user until its time has come, and not from then on: a
  -- lookup of the cookie at any time before `exp` gives the user, and at any other time nothing.
  pub lookup-start :
      (ttl : Duration) (user_id : String) (w w' : World) (plain : String) (exp later : Time)
      → start p ttl user_id w ≡ (w', ok (plain, exp))
      → plain ≢ ""
      → (exp ≡ w.now + ttl)
        × ((lookup p plain (record w' { now = later })).1
            ≡ (if ltb later exp then ok user_id else err not_found))
  unfolding lookup
  lookup-start ttl user_id w w' plain exp later e n =
      let (at_exp, _, kept) = start-row ttl user_id w w' plain exp e in
      let (row, found, whose, until, own) = kept in
      let v = record w' { now = later } in
      (
        at_exp,
        elim (Bool-cases (ltb later exp)) [
          | inl soon ↦ ground (arith, lookup_session_found plain v row n found)
          | inr late ↦
              ground (arith, (lookup_session_expired plain v row later found own (ground arith)).0)
        ],
      )

  -- After `end` the cookie gives access to nothing, and ending it again is no error.
  pub lookup-end :
      (plain : String) (w : World) (later : Time)
      → ((lookup p plain (record (end p plain w).0 { now = later })).1 ≡ err not_found)
        × ((end p plain (end p plain w).0).1 ≡ ok tt)
  unfolding lookup lookup_session end get_session delete_session
  lookup-end plain w later = elim (Bool-cases (plain == "")) [
    | inl blank ↦ ground arith
    | inr given ↦ ground (
      arith,
      delete_session-find w.store (hash_token p plain) (hash_token p plain),
      eq_refl (hash_token p plain),
    )
  ]
