-- ===== src/Web/Authorize/Answers.antt =====
-- What the consent form has established when it issues a code.
use pf_identity.Common.{
  ◌+◌, String, ◌<◌, ◌≡◌, true, false, none, some, inl, inr, eq_iff, arith, find, remove,
  Option-cases,
}
use pf_identity.Config.{Config}
use pf_identity.Domain.{AuthCode, User}
use pf_identity.OAuth.Pkce.{hash_token}
use pf_identity.Platform.{Platform}
use pf_identity.Store.Consents.{put_consent}
use pf_identity.Web.Authorize.{issue_code_redirect, handle_consent, consent, take_pending}
use pf_identity.Web.Csrf.{check_csrf}
use pf_identity.Web.Current.{current_user}
use pf_identity.Web.Http.{Request, Flow-cases, audit}
use pf_identity.World.{World, PendingAuth}
use pf_identity.Common.Text.{join_spaced}
use pf_identity.Common.{find-remove, eq_refl}
use pf_identity.Web.Authorize.Frame.{
  issue_code_redirect-IsNewFor, issue_code_redirect-frame, current_user-frame, current_user-enabled,
}
use pf_identity.Store.Audits.{append_audit}

module _ (p : Platform) (cfg : Config) where
  -- What has been established for a code that the consent form issues.
  pub record Answered (r : Request) (w w' : World) (c : AuthCode) : Type 0 where
    pub asked : PendingAuth
    pub user : User
    pub genuine : check_csrf r ≡ true
    pub allowed : r.form "decision" ≡ "allow"
    pub signed_in : (current_user p r w).1 ≡ some user
    pub enabled : user.disabled ≡ false
    pub pending : find w.pending (r.form "request_id") ≡ some asked
    pub in_time : w.now < asked.expires_at
    pub row :
        (plain : String) × (sid : String) × (c ≡ record {
          hash = hash_token p plain;
          client_id = asked.client_id;
          user_id = user.id;
          redirect_uri = asked.redirect_uri;
          scopes = asked.scopes;
          nonce = asked.nonce;
          code_challenge = asked.challenge;
          session_sid = sid;
          expires_at = w.now + cfg.code_ttl;
          used = false;
        })
    pub spent : find w'.pending (r.form "request_id") ≡ none

  -- The state in which the consent form issues the code.
  abbrev consented : Request → User → PendingAuth → World → World
  consented r u q v =
      (audit p r "consent" u.id q.client_id (join_spaced q.scopes) (record v {
        store =
            (put_consent v.store
              (record { user_id = u.id; client_id = q.client_id; scopes = q.scopes })).0;
        pending = remove v.pending (r.form "request_id");
      })).0

  record Allowed (r : Request) (w : World) : Type 0 where
    asked : PendingAuth
    user : User
    genuine : check_csrf r ≡ true
    allowed : r.form "decision" ≡ "allow"
    signed_in : (current_user p r w).1 ≡ some user
    pending : find w.pending (r.form "request_id") ≡ some asked
    in_time : w.now < asked.expires_at
    onward :
        (handle_consent p cfg r w).0
        ≡ (issue_code_redirect p cfg r user.id asked
            (consented r user asked (current_user p r w).0)).0

  handle_consent-Allowed :
      (r : Request) (w : World) (h : String) (c : AuthCode)
      → find w.store.codes h ≡ none
      → find (handle_consent p cfg r w).0.store.codes h ≡ some c
      → Allowed r w
  unfolding handle_consent consent take_pending audit
  handle_consent-Allowed r w h c absent present =
      let f = current_user-frame p r w in
      let codes = f.codes in
      let now = f.now in
      let pending = f.pending in
      elim (Option-cases (current_user p r w).1) [
        | inl missing ↦ absurd (ground arith)
        | inr (user, signed) ↦ elim (Option-cases (find w.pending (r.form "request_id"))) [
          | inl gone ↦ absurd (ground arith)
          | inr (q, kept) ↦ record {
            asked = q;
            user = user;
            genuine = ground arith;
            allowed = ground (arith, eq_iff (r.form "decision") "allow");
            signed_in = signed;
            pending = kept;
            in_time = ground arith;
            onward =
                elim (Flow-cases (
                  issue_code_redirect p cfg r user.id q
                    (consented r user q (current_user p r w).0))) [
                      | inl (x, done) ↦ ground arith
                      | inr (x, stopped) ↦ ground arith
                    ];
          }
        ]
      ]

  -- The consent form issues a code only to a signed-in and enabled user, with the token against
  -- cross-site requests and the decision to allow, for a pending request that has not expired; the
  -- code carries what was asked, for this user, and the pending request is gone afterwards.
  pub handle_consent-Answered :
      (r : Request) (w : World) (h : String) (c : AuthCode)
      → find w.store.codes h ≡ none
      → find (handle_consent p cfg r w).0.store.codes h ≡ some c
      → Answered r w (handle_consent p cfg r w).0 c
  unfolding audit append_audit put_consent
  handle_consent-Answered r w h c absent present =
      let k = handle_consent-Allowed r w h c absent present in
      let q = k.asked in
      let user = k.user in
      let f = current_user-frame p r w in
      let v = consented r user q (current_user p r w).0 in
      let onward = k.onward in
      let codes = f.codes in
      let now = f.now in
      let before = f.pending in
      let pending = (issue_code_redirect-frame p cfg r user.id q v).0 in
      let gone =
        find-remove (current_user p r w).0.pending (r.form "request_id") (r.form "request_id") in
      let (plain, sid, row) =
        issue_code_redirect-IsNewFor p cfg r user.id q v h c (ground arith) (ground arith) in
      record {
        asked = q;
        user = user;
        genuine = k.genuine;
        allowed = k.allowed;
        signed_in = k.signed_in;
        enabled = current_user-enabled p r w user k.signed_in;
        pending = k.pending;
        in_time = k.in_time;
        row = (plain, sid, ground arith);
        spent = ground (arith, eq_refl (r.form "request_id"));
      }
