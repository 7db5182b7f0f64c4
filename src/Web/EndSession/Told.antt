-- ===== src/Web/EndSession/Told.antt =====
-- Which relying parties a logout tells (`notifyBackChannel` of
-- apps/server/internal/web/end_session.go).
use mathlib.Core.List.{append_assoc, append-nil}
use pf_identity.Common.{
  String, ◌≡◌, ◌≢◌, refl, subst, ap, ◌∙◌, true, List, [], ◌∷◌, ◌++◌, inl, inr, arith, ◌==◌, eq_refl,
  eq_iff, Bool-cases, Option-cases, All, All-append, member, sym,
}
use pf_identity.Config.{Config}
use pf_identity.Domain.{ok, Client, Time, Result-cases}
use pf_identity.OAuth.Redirect.{parse_redirect_uri}
use pf_identity.Oidc.{LogoutTokenInput, sign_logout_token}
use pf_identity.Platform.{Platform, Url}
use pf_identity.Store.{Store}
use pf_identity.Store.Clients.{get_client}
use pf_identity.Store.Sessions.{list_session_clients}
use pf_identity.Web.Notices.{
  logout_ttl, post_logout, notify_client, notify_all, notify_back_channel,
}
use pf_identity.World.{World, random_token, bytes}

member-weaken :
    (y : String) (all xs : List String)
    → All (λ x. member x all ≡ true) xs
    → All (λ x. member x (y ∷ all) ≡ true) xs
member-weaken y all [] h = tt
member-weaken y all (x ∷ xs) (here, rest) = (ground arith, member-weaken y all xs rest)

pub member-All : (xs : List String) → All (λ x. member x xs ≡ true) xs
member-All [] = tt
member-All (x ∷ xs) = (ground (arith, eq_refl x), member-weaken x xs xs (member-All xs))

-- A client of the session listens: it is stored, and its back-channel URI is given and fits.
pub record Listens (p : Platform) (s : Store) (id : String) (c : Client) : Type 0 where
  pub stored : get_client s id ≡ ok c
  pub given : c.back_channel_logout_uri ≢ ""
  pub fits : (u : Url) × (parse_redirect_uri p c.back_channel_logout_uri ≡ ok u)

module _ (p : Platform) (cfg : Config) (sid subject : String) where
  -- What is signed for a client.
  abbrev pub token_input : Client → Time → String → LogoutTokenInput
  token_input c now jti = record {
    issuer = cfg.issuer;
    subject = subject;
    audience = c.id;
    sid = sid;
    jti = jti;
    now = now;
    ttl = logout_ttl;
  }

  -- A post goes to this client: to its back-channel URI, with a logout token for it.
  abbrev pub GoesTo : Client → Time → String × String → Type 0
  GoesTo c now post =
      (post.0 ≡ c.back_channel_logout_uri)
      × ((jti : String) × (sign_logout_token p (token_input c now jti) ≡ ok post.1))

  -- A post went to one of these clients, which listens.
  abbrev pub WentTo : Store → Time → List String → String × String → Type 0
  WentTo s now ids post =
      (id : String) × (c : Client) × (member id ids ≡ true) × Listens p s id c × GoesTo c now post

  -- Telling one client leaves the store and the clock, and posts to this client or nothing.
  pub record Told (s : Store) (clock : Time) (id : String) (w w' : World) : Type 0 where
    pub store : w'.store ≡ s
    pub now : w'.now ≡ clock
    pub new : List (String × String)
    pub posts : w'.posted ≡ w.posted ++ new
    pub went : (ids : List String) → member id ids ≡ true → All (WentTo s clock ids) new

  post_logout-Told :
      (id : String) (c : Client) (w : World)
      → Listens p w.store id c
      → Told w.store w.now id w (post_logout p cfg sid subject c w)
  unfolding post_logout random_token bytes
  post_logout-Told id c w listens = elim (Option-cases (p.rand_read w.reads 32)) [
    | inl dry ↦ record {
      store = ground arith;
      now = ground arith;
      new = [];
      posts = ground (arith, append-nil w.posted);
      went = λ ids here. tt;
    }
    | inr (b, drawn) ↦
        let jti = p.raw_url_encode b in
        elim (Result-cases (sign_logout_token p (token_input c w.now jti))) [
          | inr (x, unsigned) ↦ record {
            store = ground arith;
            now = ground arith;
            new = [];
            posts = ground (arith, append-nil w.posted);
            went = λ ids here. tt;
          }
          | inl (tok, signed) ↦ record {
            store = ground arith;
            now = ground arith;
            new = (c.back_channel_logout_uri, tok) ∷ [];
            posts = ground arith;
            went = λ ids here. ((id, c, here, listens, (refl, (jti, signed))), tt);
          }
        ]
  ]

  pub notify_client-Told :
      (id : String) (w : World) → Told w.store w.now id w (notify_client p cfg sid subject id w)
  unfolding notify_client
  notify_client-Told id w =
      let quiet : (notify_client p cfg sid subject id w ≡ w)
          → Told w.store w.now id w (notify_client p cfg sid subject id w) =
        λ same. record {
          store = ap (λ v. v.store) same;
          now = ap (λ v. v.now) same;
          new = [];
          posts = ap (λ v. v.posted) same ∙ sym (append-nil w.posted);
          went = λ ids here. tt;
        } in
      elim (Result-cases (get_client w.store id)) [
        | inr (x, missing) ↦ quiet (ground arith)
        | inl (c, here) ↦ elim (Bool-cases (c.back_channel_logout_uri == "")) [
          | inl deaf ↦ quiet (ground arith)
          | inr given ↦ elim (Result-cases (parse_redirect_uri p c.back_channel_logout_uri)) [
            | inr (x, bad) ↦ quiet (ground arith)
            | inl (u, fits) ↦
                let told : notify_client p cfg sid subject id w
                    ≡ post_logout p cfg sid subject c w =
                  ground arith in
                subst (Told w.store w.now id w) (sym told) (
                  post_logout-Told id c w (record {
                    stored = here;
                    given = λ blank. ground (arith, eq_iff c.back_channel_logout_uri "");
                    fits = (u, fits);
                  }))
          ]
        ]
      ]

  pub notify_all-WentTo :
      (s : Store) (now : Time) (all ids : List String) (w : World)
      → w.store ≡ s
      → w.now ≡ now
      → All (λ id. member id all ≡ true) ids
      → (new : List (String × String)) × ((notify_all p cfg sid subject ids w).posted
          ≡ w.posted ++ new)
        × All (WentTo s now all) new
  unfolding notify_all
  notify_all-WentTo s now all [] w same clock among = ([], sym (append-nil w.posted), tt)
  notify_all-WentTo s now all (id ∷ ids) w same clock (here, among) =
      let v = notify_client p cfg sid subject id w in
      let told = notify_client-Told id w in
      let (new, posts, went) =
        notify_all-WentTo s now all ids v (told.store ∙ same) (told.now ∙ clock) among in
      (
        told.new ++ new,
        ground (arith, posts, told.posts, append_assoc w.posted told.new new),
        All-append (WentTo s now all) told.new new
            (subst (λ z. All (WentTo z now all) told.new) same
              (subst (λ z. All (WentTo w.store z all) told.new) clock (told.went all here)))
            went,
      )

  -- A logout tells nobody but the clients of its session: each token that it posts, after those
  -- that were posted before, goes to the back-channel URI of a stored client that the session has
  -- signed in to, and is a logout token that is signed for that client.
  pub notify_back_channel-WentTo :
      (ids : List String) (w : World)
      → list_session_clients w.store sid ≡ ok ids
      → (new : List (String × String)) × ((notify_back_channel p cfg sid subject w).posted
          ≡ w.posted ++ new)
        × All (WentTo w.store w.now ids) new
  unfolding notify_back_channel
  notify_back_channel-WentTo ids w listed = elim (Bool-cases (sid == "")) [
    | inl nobody ↦ ([], ground (arith, append-nil w.posted), tt)
    | inr given ↦
        let (new, posts, went) =
          notify_all-WentTo w.store w.now ids ids w refl refl (member-All ids) in
        (new, ground (arith, posts), went)
  ]
