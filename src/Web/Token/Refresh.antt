-- ===== src/Web/Token/Refresh.antt =====
-- The rotation of refresh tokens at the token endpoint, and the misuse of one.
use pf_identity.Common.{
  String, ◌<◌, ◌≤◌, ◌≡◌, ◌≢◌, true, false, some, ◌⊎◌, inl, inr, eq_iff, arith, find, Option-cases,
  find-store_at, Bool-cases, eq_refl, ◌==◌, if◌then◌else◌,
}
use pf_identity.Config.{Config}
use pf_identity.Domain.{ok, err, used, Client, RefreshToken, Result-cases}
use pf_identity.OAuth.Pkce.{hash_token}
use pf_identity.Platform.{Platform}
use pf_identity.Store.{Store}
use pf_identity.Store.Audits.{append_audit}
use pf_identity.Store.History.Families.{revoke_family_exact}
use pf_identity.Store.Tokens.{take_refresh, get_refresh, revoke_family}
use pf_identity.Web.Http.{
  Request, client_error, tokens, TokenResponse, Flow-cases, next, answers, audit,
}
use pf_identity.Web.Issue.{authenticate_client, write_token_response}
use pf_identity.Web.Issue.Frame.{write_token_response_stops}
use pf_identity.Web.Token.{token_refresh, reuse_detected, misuse}
use pf_identity.World.{World}

take_refresh-ok :
    (s : Store) (hash : String) (c : RefreshToken)
    → (take_refresh s hash).1 ≡ ok c
    → (row : RefreshToken) × (find s.refresh hash ≡ some row)
      × (row.revoked ≡ false)
      × (c ≡ record row { revoked = true })
unfolding take_refresh
take_refresh-ok s hash c e = elim (Option-cases (find s.refresh hash)) [
  | inl missing ↦ absurd (ground arith)
  | inr (row, found) ↦ (row, found, ground arith, ground arith)
]

take_refresh-revoked :
    (s : Store) (hash : String) (row : RefreshToken)
    → find s.refresh hash ≡ some row
    → row.revoked ≡ true
    → take_refresh s hash ≡ (s, err used)
unfolding take_refresh
take_refresh-revoked s hash row found dead = ground arith

take_refresh-live :
    (s : Store) (hash : String) (row : RefreshToken)
    → find s.refresh hash ≡ some row
    → row.revoked ≡ false
    → (take_refresh s hash).1 ≡ ok (record row { revoked = true })
unfolding take_refresh
take_refresh-live s hash row found live = ground arith

-- Revoking the family of a token that has just been taken: as if it had not been taken.
revoke_family-take_refresh :
    (s : Store) (hash h : String) (row t : RefreshToken)
    → find s.refresh hash ≡ some row
    → row.revoked ≡ false
    → find s.refresh h ≡ some t
    → find (revoke_family (take_refresh s hash).0 row.family_id).0.refresh h
      ≡ some (if t.family_id == row.family_id then record t { revoked = true } else t)
unfolding take_refresh
revoke_family-take_refresh s hash h row t found live at_h =
    let taken = record row { revoked = true } in
    let written = find-store_at s.refresh hash h taken in
    let after = (take_refresh s hash).0 in
    elim (Bool-cases (hash == h)) [
      | inl same ↦
          let one : hash ≡ h = (eq_iff hash h).0 same in
          let there : find after.refresh h ≡ some taken = ground arith in
          ground
            (arith, revoke_family_exact after row.family_id h taken there, eq_refl row.family_id)
      | inr other ↦
          let there : find after.refresh h ≡ some t = ground arith in
          revoke_family_exact after row.family_id h t there
    ]

module _ (p : Platform) (cfg : Config) (r : Request) where
  pub record Rotated (w w' : World) (t : TokenResponse) : Type 0 where
    pub client : Client
    pub row : RefreshToken
    pub authenticated : authenticate_client p r w.store ≡ ok client
    pub stored : find w.store.refresh (hash_token p (r.form "refresh_token")) ≡ some row
    pub live : row.revoked ≡ false
    pub in_time : w.now < row.expires_at
    pub own : row.client_id ≡ client.id
    -- The response is issued after the old token was revoked, with a new one of the same family.
    pub issued :
        write_token_response p cfg r client row.user_id row.scopes "" true row.family_id
          row.session_sid
          (record w { store = (take_refresh w.store (hash_token p (r.form "refresh_token"))).0 })
        ≡ (w', next (tokens t))

  -- A refresh token is rotated only for an authenticated client, if it is stored, not revoked, not
  -- expired and this client's own.
  pub token_refresh-Rotated :
      (w w' : World) (t : TokenResponse)
      → answers (token_refresh p cfg r) w ≡ (w', tokens t)
      → Rotated w w' t
  unfolding token_refresh misuse reuse_detected audit
  token_refresh-Rotated w w' t e =
      let hash = hash_token p (r.form "refresh_token") in
      elim (Result-cases (authenticate_client p r w.store)) [
        | inr (x, unknown) ↦ absurd (ground arith)
        | inl (client, authenticated) ↦ elim (Result-cases (take_refresh w.store hash).1) [
          | inr (x, refused) ↦
              let v = record w { store = (take_refresh w.store hash).0 } in
              elim (Result-cases (get_refresh v.store hash)) [
                | inl (row, known) ↦ absurd (ground arith)
                | inr (y, unknown) ↦ absurd (ground arith)
              ]
          | inl (taken, took) ↦
              let (row, stored, live, marked) = take_refresh-ok w.store hash taken took in
              let v = record w { store = (take_refresh w.store hash).0 } in
              let write =
                write_token_response p cfg r client row.user_id row.scopes "" true row.family_id
                  row.session_sid v in
              record {
                client = client;
                row = row;
                authenticated = authenticated;
                stored = stored;
                live = live;
                in_time = ground arith;
                own = ground (arith, eq_iff row.client_id client.id);
                issued = elim (Flow-cases write) [
                  | inl (x, written) ↦ ground (arith)
                  | inr (x, stopped) ↦ absurd (
                      write_token_response_stops p cfg r client row.user_id row.scopes "" true
                        row.family_id row.session_sid v t (ground arith))
                ];
              }
        ]
      ]

  -- Who presents a refresh token that was revoked, is answered with an error, and of the tokens in
  -- the store every one of its family is revoked: afterwards the row `t` at any hash `h` is marked
  -- revoked if it is of this family, and is otherwise as it was.
  pub token_refresh_replayed :
      (w : World) (client : Client) (row t : RefreshToken) (h : String)
      → authenticate_client p r w.store ≡ ok client
      → find w.store.refresh (hash_token p (r.form "refresh_token")) ≡ some row
      → row.revoked ≡ true
      → find w.store.refresh h ≡ some t
      → ((answers (token_refresh p cfg r) w).1
          ≡ client_error 400 "invalid_grant" "refresh token invalid")
        × (find (answers (token_refresh p cfg r) w).0.store.refresh h
            ≡ some (if t.family_id == row.family_id then record t { revoked = true } else t))
  unfolding token_refresh reuse_detected audit append_audit get_refresh
  token_refresh_replayed w client row t h authenticated stored dead at_h =
      let exact = revoke_family_exact w.store row.family_id h t at_h in
      let taken =
        take_refresh-revoked w.store (hash_token p (r.form "refresh_token")) row stored dead in
      ground arith

  -- An unrevoked refresh token that has expired, or that another client presents, is answered with
  -- an error, and of the tokens in the store every one of its family is revoked, itself included:
  -- afterwards the row `t` at any hash `h` is marked revoked if it is of this family, and is
  -- otherwise as it was.
  pub token_refresh_misused :
      (w : World) (client : Client) (row t : RefreshToken) (h : String)
      → authenticate_client p r w.store ≡ ok client
      → find w.store.refresh (hash_token p (r.form "refresh_token")) ≡ some row
      → row.revoked ≡ false
      → find w.store.refresh h ≡ some t
      → (row.expires_at ≤ w.now) ⊎ (row.client_id ≢ client.id)
      → ((answers (token_refresh p cfg r) w).1
          ≡ client_error 400 "invalid_grant" "refresh token reuse or expiry")
        × (find (answers (token_refresh p cfg r) w).0.store.refresh h
            ≡ some (if t.family_id == row.family_id then record t { revoked = true } else t))
  unfolding token_refresh misuse audit append_audit
  token_refresh_misused w client row t h authenticated stored live at_h wrong =
      let exact =
        revoke_family-take_refresh w.store (hash_token p (r.form "refresh_token")) h row t stored
          live at_h in
      let taken =
        take_refresh-live w.store (hash_token p (r.form "refresh_token")) row stored live in
      elim wrong [
        | inl late ↦ ground arith
        | inr foreign ↦ ground (arith, eq_iff row.client_id client.id)
      ]
