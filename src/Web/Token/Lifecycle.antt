-- ===== src/Web/Token/Lifecycle.antt =====
-- A code and its tokens over time: one exchange, then access until the tokens expire.
use pf_identity.Common.{
  ◌+◌, String, ◌≡◌, ◌≢◌, sym, ◌∙◌, subst, true, List, none, some, inl, inr, eq_iff, arith,
  if◌then◌else◌, ltb, find, All, Option-cases, Bool-cases,
}
use pf_identity.Config.{Config}
use pf_identity.Domain.{ok, AuthCode, User, Time, or_not_found}
use pf_identity.OAuth.Pkce.{hash_token}
use pf_identity.OAuth.Scope.{contains}
use pf_identity.Platform.{Platform}
use pf_identity.Store.{Store}
use pf_identity.Store.Codes.{take_code}
use pf_identity.Store.History.{Call, run}
use pf_identity.Store.History.SingleUse.{IsSpent, KeepsCode, run-IsSpent, IsSpent-take_code}
use pf_identity.Store.Tokens.{get_access}
use pf_identity.Store.Users.{get_by_id}
use pf_identity.Web.Current.{bearer, live_token}
use pf_identity.Web.Http.{Request, client_error, tokens, user_info, TokenResponse, answers}
use pf_identity.Web.Issue.Frame.{
  write_token_response-SameButTokens, write_token_response-Issued, issued_access,
}
use pf_identity.Web.Token.{token_auth_code, handle_user_info, org_part}
use pf_identity.Web.Token.Exchange.{token_auth_code-Redeemed}
use pf_identity.World.{World}

IsSpent-frame : (h : String) (s t : Store) → t.codes ≡ s.codes → IsSpent h s → IsSpent h t
IsSpent-frame h s t same spent c e = spent c (rw same at e)

take_code-users : (s : Store) (hash : String) → (take_code s hash).0.users ≡ s.users
unfolding take_code
take_code-users s hash = elim (Option-cases (find s.codes hash)) [
  | inl missing ↦ ground arith
  | inr (row, found) ↦ ground arith
]

module _ (p : Platform) (cfg : Config) where
  exchanged-IsSpent :
      (r : Request) (w w' : World) (t : TokenResponse)
      → answers (token_auth_code p cfg r) w ≡ (w', tokens t)
      → IsSpent (hash_token p (r.form "code")) w'.store
  exchanged-IsSpent r w w' t e =
      let d = token_auth_code-Redeemed p cfg r w w' t e in
      let hash = hash_token p (r.form "code") in
      let v = record w { store = (take_code w.store hash).0 } in
      let row = d.row in
      let same =
        write_token_response-SameButTokens p cfg r d.client row.user_id row.scopes row.nonce
          (contains row.scopes "offline_access") "" row.session_sid v in
      let codes = same.codes in
      let issued = d.issued in
      IsSpent-frame hash v.store w'.store (ground arith) (IsSpent-take_code w.store hash)

  -- One code, one exchange: after tokens were issued for a code, no request with that code is
  -- answered with tokens, by whatever client and at whatever time, after any calls of other
  -- requests to the store that do not store a code under the same hash again.
  pub code_exchanged_once :
      (lower : String → String) (r r' : Request) (w w' v v' : World) (t t' : TokenResponse)
      (cs : List Call)
      → answers (token_auth_code p cfg r) w ≡ (w', tokens t)
      → r'.form "code" ≡ r.form "code"
      → All (KeepsCode (hash_token p (r.form "code"))) cs
      → v.store ≡ run lower w'.store cs
      → answers (token_auth_code p cfg r') v ≢ (v', tokens t')
  code_exchanged_once lower r r' w w' v v' t t' cs e same keep later e' =
      let d = token_auth_code-Redeemed p cfg r' v v' t' e' in
      let spent =
        run-IsSpent lower w'.store cs (hash_token p (r.form "code")) keep
          (exchanged-IsSpent r w w' t e) in
      let row = d.row in
      let stored = d.stored in
      let unused = d.unused in let used : row.used ≡ true = spent row (ground arith) in cc

  -- The access token of an exchange gives its bearer the account of the code at the userinfo
  -- endpoint as long as `access_ttl` has not passed, with the address and the name only where the
  -- scopes of the code name them; from then on it is refused.
  pub user_info-token_auth_code :
      (r r' : Request) (w w' : World) (t : TokenResponse) (later : Time)
      → answers (token_auth_code p cfg r) w ≡ (w', tokens t)
      → bearer p r' ≡ t.access_token
      → t.access_token ≢ ""
      → (row : AuthCode) × (u : User) × (find w.store.codes (hash_token p (r.form "code"))
          ≡ some row)
        × (get_by_id w.store row.user_id ≡ ok u)
        × ((handle_user_info p cfg r' (record w' { now = later })).1 ≡ (
            if ltb later (w.now + cfg.access_ttl)
            then user_info (record {
              sub = u.id;
              email =
                  if contains row.scopes "email" then some (u.email, u.email_verified) else none;
              name = if contains row.scopes "profile" then some u.name else none;
              orgs = org_part p cfg w'.store u.id row.session_sid row.scopes;
            })
            else client_error 401 "invalid_token" "access token invalid"))
  unfolding handle_user_info live_token get_by_id
  user_info-token_auth_code r r' w w' t later e carried given =
      let d = token_auth_code-Redeemed p cfg r w w' t e in
      let hash = hash_token p (r.form "code") in
      let s = (take_code w.store hash).0 in
      let v = record w { store = s } in
      let row = d.row in
      let i =
        write_token_response-Issued p cfg r d.client row.user_id row.scopes row.nonce
          (contains row.scopes "offline_access") "" row.session_sid v w' (tokens t) d.issued in
      let u = i.user in
      let taken : s.users ≡ w.store.users = take_code-users w.store hash in
      let same =
        write_token_response-SameButTokens p cfg r d.client row.user_id row.scopes row.nonce
          (contains row.scopes "offline_access") "" row.session_sid v in
      let kept : w'.store.users ≡ s.users =
        subst (λ z. z.0.store.users ≡ s.users) d.issued same.users in
      let known : get_by_id w.store row.user_id ≡ ok u =
        subst (λ z. or_not_found (find z row.user_id) ≡ ok u) taken i.known in
      let known_later : get_by_id w'.store row.user_id ≡ ok u =
        subst (λ z. or_not_found (find z row.user_id) ≡ ok u) (sym (kept ∙ taken)) known in
      let shape = i.shape in
      let response = i.response in
      let same_token : response.access_token ≡ bearer p r' = ground arith in
      let tok =
        issued_access p cfg d.client row.user_id row.scopes row.session_sid w (bearer p r') in
      let live : get_access w'.store (hash_token p (bearer p r')) ≡ ok tok =
        subst
          (λ z.
            get_access w'.store (hash_token p z)
            ≡ ok (issued_access p cfg d.client row.user_id row.scopes row.session_sid w z))
          same_token i.access in
      (
        row,
        u,
        d.stored,
        known,
        elim (Bool-cases (ltb later (w.now + cfg.access_ttl))) [
          | inl soon ↦ ground (arith, eq_iff (bearer p r') "")
          | inr late ↦ ground (arith, eq_iff (bearer p r') "")
        ],
      )
