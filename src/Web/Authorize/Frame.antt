-- ===== src/Web/Authorize/Frame.antt =====
-- What the steps of the authorization endpoint write, and what they leave alone.
use pf_identity.Common.{
  ℕ, ◌+◌, store_at, String, ◌≡◌, false, List, none, some, inl, inr, ◌==◌, arith, ltb, find,
  Option-cases, Bool-cases, find-store_at,
}
use pf_identity.Config.{Config}
use pf_identity.Domain.{AuthCode, User, Result-cases}
use pf_identity.OAuth.Pkce.{hash_token}
use pf_identity.Platform.{Platform}
use pf_identity.Session.{lookup, lookup_session, keep_unexpired}
use pf_identity.Store.{Store}
use pf_identity.Store.Codes.{put_code}
use pf_identity.Store.Consents.{get_consent}
use pf_identity.Store.Sessions.{add_session_client, delete_session, get_session, forget_clients}
use pf_identity.Store.Users.{get_by_id}
use pf_identity.Web.Authorize.{issue_code_redirect, has_consent}
use pf_identity.Web.Current.{current_user, current_sid, enabled_user}
use pf_identity.Web.Http.{Request}
use pf_identity.World.{World, PendingAuth, random_token, bytes}

pub has_consent-frame :
    (s t : Store) (user_id client_id : String) (want : List String)
    → t.consent ≡ s.consent
    → has_consent t user_id client_id want ≡ has_consent s user_id client_id want
unfolding has_consent get_consent
has_consent-frame s t user_id client_id want same = rw (same)

module _ (p : Platform) where
  -- The two states agree but for sessions.
  pub record SameButSessions (w v : World) : Type 0 where
    pub codes : v.store.codes ≡ w.store.codes
    pub users : v.store.users ≡ w.store.users
    pub clients : v.store.clients ≡ w.store.clients
    pub consents : v.store.consent ≡ w.store.consent
    pub pending : v.pending ≡ w.pending
    pub now : v.now ≡ w.now

  lookup_session-frame :
      (plain : String) (w : World) → SameButSessions w (lookup_session p plain w).0
  unfolding lookup_session keep_unexpired delete_session forget_clients get_session
  lookup_session-frame plain w = elim (Bool-cases (plain == "")) [
    | inl blank ↦ ground arith
    | inr given ↦ elim (Option-cases (find w.store.sessions (hash_token p plain))) [
      | inl missing ↦ ground arith
      | inr (row, found) ↦ elim (Bool-cases (ltb w.now row.expires_at)) [
        | inl live ↦ ground arith
        | inr late ↦ ground arith
      ]
    ]
  ]

  lookup-frame : (plain : String) (w : World) → SameButSessions w (lookup p plain w).0
  unfolding lookup
  lookup-frame plain w =
      let f = lookup_session-frame plain w in
      elim (Result-cases (lookup_session p plain w).1) [
        | inl (row, found) ↦ ground (arith, f.codes)
        | inr (e, failed) ↦ ground (arith, f.codes)
      ]

  current_sid-frame : (r : Request) (w : World) → SameButSessions w (current_sid p r w).0
  unfolding current_sid
  current_sid-frame r w = elim (Option-cases (r.cookie "idp_session")) [
    | inl missing ↦ ground arith
    | inr (value, sent) ↦
        let f = lookup_session-frame value w in
        elim (Result-cases (lookup_session p value w).1) [
          | inl (row, found) ↦ ground (arith, f.codes)
          | inr (e, failed) ↦ ground (arith, f.codes)
        ]
  ]

  pub current_user-frame : (r : Request) (w : World) → SameButSessions w (current_user p r w).0
  unfolding current_user
  current_user-frame r w = elim (Option-cases (r.cookie "idp_session")) [
    | inl missing ↦ ground arith
    | inr (value, sent) ↦
        let f = lookup-frame value w in
        elim (Result-cases (lookup p value w).1) [
          | inl (row, found) ↦ ground (arith, f.codes)
          | inr (e, failed) ↦ ground (arith, f.codes)
        ]
  ]

  -- The user of a request is an enabled account.
  pub current_user-enabled :
      (r : Request) (w : World) (u : User) → (current_user p r w).1 ≡ some u → u.disabled ≡ false
  unfolding current_user enabled_user
  current_user-enabled r w u e = elim (Option-cases (r.cookie "idp_session")) [
    | inl missing ↦ absurd (ground arith)
    | inr (value, sent) ↦ elim (Result-cases (lookup p value w).1) [
      | inr (x, failed) ↦ absurd (ground arith)
      | inl (id, found) ↦ elim (Result-cases (get_by_id (lookup p value w).0.store id)) [
        | inr (x, failed) ↦ absurd (ground arith)
        | inl (v, known) ↦ ground arith
      ]
    ]
  ]

  module _ (cfg : Config) where
    -- The row of a code that a pending request leads to.
    abbrev pub row_of : String → String → PendingAuth → String → World → AuthCode
    row_of plain user_id q sid w = record {
      hash = hash_token p plain;
      client_id = q.client_id;
      user_id = user_id;
      redirect_uri = q.redirect_uri;
      scopes = q.scopes;
      nonce = q.nonce;
      code_challenge = q.challenge;
      session_sid = sid;
      expires_at = w.now + cfg.code_ttl;
      used = false;
    }

    -- A code that is new after a step is one for the user and the pending request.
    abbrev pub IsNewFor : String → PendingAuth → World → World → Type 0
    IsNewFor user_id q w w' =
        (h : String) (c : AuthCode)
        → find w.store.codes h ≡ none
        → find w'.store.codes h ≡ some c
        → (plain : String) × (sid : String) × (c ≡ row_of plain user_id q sid w)

    issue_code_redirect-codes :
        (r : Request) (user_id : String) (q : PendingAuth) (w : World) (bs : List ℕ)
        → p.rand_read w.reads 32 ≡ some bs
        → (issue_code_redirect p cfg r user_id q w).0.store.codes
          ≡ store_at w.store.codes (hash_token p (p.raw_url_encode bs)) (
              row_of
                (p.raw_url_encode bs)
                user_id
                q
                (current_sid p r (record w { reads = w.reads + 1 })).1
                w)
    unfolding issue_code_redirect random_token bytes put_code add_session_client
    issue_code_redirect-codes r user_id q w bs drawn =
        let f = current_sid-frame r (record w { reads = w.reads + 1 }) in
        let codes = f.codes in
        let now = f.now in
        elim (Result-cases (p.parse_url q.redirect_uri)) [
          | inl (u, parsed) ↦ ground arith
          | inr (x, malformed) ↦ ground arith
        ]

    pub issue_code_redirect-IsNewFor :
        (r : Request) (user_id : String) (q : PendingAuth) (w : World)
        → IsNewFor user_id q w (issue_code_redirect p cfg r user_id q w).0
    unfolding issue_code_redirect random_token bytes
    issue_code_redirect-IsNewFor r user_id q w h c absent present =
        elim (Option-cases (p.rand_read w.reads 32)) [
          | inl failed ↦ absurd (ground arith)
          | inr (bs, drawn) ↦
              let plain = p.raw_url_encode bs in
              let sid = (current_sid p r (record w { reads = w.reads + 1 })).1 in
              let codes = issue_code_redirect-codes r user_id q w bs drawn in
              let row = row_of plain user_id q sid w in
              let law = find-store_at w.store.codes (hash_token p plain) h row in
              (plain, sid, ground arith)
        ]

    pub issue_code_redirect-frame :
        (r : Request) (user_id : String) (q : PendingAuth) (w : World)
        → ((issue_code_redirect p cfg r user_id q w).0.pending ≡ w.pending)
          × ((issue_code_redirect p cfg r user_id q w).0.store.consent ≡ w.store.consent)
    unfolding issue_code_redirect random_token bytes put_code add_session_client
    issue_code_redirect-frame r user_id q w = elim (Option-cases (p.rand_read w.reads 32)) [
      | inl failed ↦ ground arith
      | inr (bs, drawn) ↦
          let f = current_sid-frame r (record w { reads = w.reads + 1 }) in
          let pending = f.pending in
          let consents = f.consents in
          elim (Result-cases (p.parse_url q.redirect_uri)) [
            | inl (u, parsed) ↦ ground arith
            | inr (x, malformed) ↦ ground arith
          ]
    ]
