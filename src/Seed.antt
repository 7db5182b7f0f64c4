-- ===== src/Seed.antt =====
-- The rows that the server starts with: apps/server/internal/seed/seed.go. The log lines are left
-- out. The list that `json.Unmarshal` reads is an argument, `none` where it fails.
pub mod Again
use Prim.Native.String
use pf_identity.Account.{register, RegisterInput}
use pf_identity.Common.{
  String, Bool, true, false, not, ◌&&◌, ◌||◌, List, [], ◌∷◌, ◌++◌, Option, none, some, ◌==◌,
  if◌then◌else◌, member,
}
use pf_identity.Common.Text.{trim_space, trim_prefix, trim_suffix, has_suffix}
use pf_identity.Config.{Config}
use pf_identity.Domain.{
  Result, ok, err, Error, other, not_found, conflict, Client, ClientPatch, client_public,
  Organization, org_role_owner,
}
use pf_identity.OAuth.Redirect.{parse_redirect_uri}
use pf_identity.Platform.{Platform, Url}
use pf_identity.Store.{Store}
use pf_identity.Store.Clients.{create_client, get_client, update_client}
use pf_identity.Store.Orgs.{
  list_organizations_for_user, create_organization, add_organization_member,
}
use pf_identity.Store.Users.{get_by_email}
use pf_identity.World.{World, M, pure, fail, ask, call, clock, new_id, ◌>>=◌, ◌>>◌}

pub record ExtraClient : Type 0 where
  pub id : String
  pub name : String
  pub redirect_uri : String
  pub post_logout : String

-- The loop of `unionExact`: `seen` of the source holds the texts of `out`.
unfoldable pub union_exact : List String → List String → List String
union_exact out [] = out
union_exact out (item ∷ add) =
    let skipped = union_exact out add in
    let added = union_exact (out ++ item ∷ []) add in if member item out then skipped else added

unfoldable pub same_strings : List String → List String → Bool
same_strings [] [] = true
same_strings [] (y ∷ ys) = false
same_strings (x ∷ xs) [] = false
same_strings (x ∷ xs) (y ∷ ys) = x == y && same_strings xs ys

-- `u.Path` with its last segment `callback` replaced.
abbrev sibling_path : String → String → String
sibling_path path leaf = String.◌++◌ (trim_suffix path "/callback") (String.◌++◌ "/" leaf)

-- The cases of `replaceCallbackPath` on a URL whose query and fragment are dropped.
unfoldable pub moved_url : Url → String → Url
moved_url u leaf =
    if u.scheme == "http" || u.scheme == "https"
    then if has_suffix u.path "/callback"
      then record u { path = sibling_path u.path leaf }
      else record u { path = String.◌++◌ "/" leaf }
    else if not (u.host == "") && u.path == ""
    then record u { host = leaf }
    else if has_suffix u.path "/callback"
    then record u { path = sibling_path u.path leaf }
    else if not (u.path == "")
    then record u { path = String.◌++◌ u.path (String.◌++◌ "/" leaf) }
    else record u { path = String.◌++◌ "/" leaf }

-- The patch that gives an existing client what is wanted and keeps the URIs it has.
abbrev pub merged : Client → Client → ClientPatch
merged existing want = record {
  name = want.name;
  redirect_uris = union_exact existing.redirect_uris want.redirect_uris;
  post_logout_redirect_uris =
      union_exact existing.post_logout_redirect_uris want.post_logout_redirect_uris;
  front_channel_logout_uri = want.front_channel_logout_uri;
  back_channel_logout_uri = want.back_channel_logout_uri;
}

-- Whether an existing client has all that is wanted.
unfoldable pub is_current : Client → Client → Bool
unfolding same_strings
is_current existing want =
    let patch = merged existing want in
    existing.name == want.name
    && same_strings existing.redirect_uris patch.redirect_uris
    && same_strings existing.post_logout_redirect_uris patch.post_logout_redirect_uris
    && existing.front_channel_logout_uri == want.front_channel_logout_uri
    && existing.back_channel_logout_uri == want.back_channel_logout_uri

-- The second half of `upsertPublicClient`, once the client that is wanted is built.
unfoldable pub upsert_client : Client → M (Unit {0})
unfolding is_current
upsert_client want w = elim (get_client w.store want.id) [
  | ok existing ↦
      if is_current existing want
      then (w, ok tt)
      else call (λ s. update_client s existing.id (merged existing want)) w
  | err not_found ↦ call (λ s. create_client s want) w
  | err e ↦ (w, err e)
]

module _ (p : Platform) where
  unfoldable pub replace_callback_path : String → String → Result String
  unfolding moved_url
  replace_callback_path redirect path = elim (parse_redirect_uri p redirect) [
    | err e ↦ err e
    | ok u ↦ ok (
        p.url_string
          (moved_url (record u { raw_query = ""; fragment = "" }) (trim_prefix path "/")))
  ]

  unfoldable pub default_post_logout_uri : String → Result String
  unfolding replace_callback_path
  default_post_logout_uri redirect = replace_callback_path redirect "/logged-out"

  -- The first half of `upsertPublicClient`: the client that is wanted.
  unfoldable pub wanted_client : String → String → String → String → M Client
  unfolding replace_callback_path default_post_logout_uri
  wanted_client id name redirect post_logout = do
    post ← λ w. (w, if post_logout == "" then default_post_logout_uri redirect else ok post_logout)
    front ← λ w. (w, replace_callback_path redirect "/frontchannel-logout")
    back ← λ w. (w, replace_callback_path redirect "/backchannel-logout")
    pure (record {
      id = id;
      name = name;
      client_type = client_public;
      secret_hash = "";
      redirect_uris = redirect ∷ [];
      post_logout_redirect_uris = post ∷ [];
      front_channel_logout_uri = front;
      back_channel_logout_uri = back;
      token_endpoint_auth = "";
    })

  unfoldable pub upsert_public_client : String → String → String → String → M (Unit {0})
  unfolding wanted_client upsert_client
  upsert_public_client id name redirect post_logout = do
    want ← wanted_client id name redirect post_logout
    upsert_client want

  unfoldable pub public_client : Config → M (Unit {0})
  unfolding upsert_public_client
  public_client cfg =
      if cfg.seed_public_client_id == ""
      then pure tt
      else if cfg.seed_public_redirect == ""
      then fail (other "IDENTITY_SEED_PUBLIC_REDIRECT_URI is required when seeding a public client")
      else upsert_public_client cfg.seed_public_client_id cfg.seed_public_client_name
          cfg.seed_public_redirect cfg.seed_public_post_logout

  unfoldable pub demo_rpb : Config → M (Unit {0})
  unfolding upsert_public_client
  demo_rpb cfg =
      let id =
        if cfg.seed_demo_rpb_client_id == "" then "sample-rp-b" else cfg.seed_demo_rpb_client_id in
      let name =
        if cfg.seed_demo_rpb_client_name == ""
        then "Sample RP B"
        else cfg.seed_demo_rpb_client_name in
      if cfg.seed_demo_rpb_redirect == ""
      then pure tt
      else upsert_public_client id name cfg.seed_demo_rpb_redirect cfg.seed_demo_rpb_post_logout

  unfoldable pub extra_client : ExtraClient → M (Unit {0})
  unfolding upsert_public_client
  extra_client item =
      let id = trim_space item.id in
      let redirect = trim_space item.redirect_uri in
      let name = if trim_space item.name == "" then id else trim_space item.name in
      if id == "" || redirect == ""
      then fail (other "IDENTITY_SEED_EXTRA_CLIENTS entries need id and redirectUri")
      else upsert_public_client id name redirect (trim_space item.post_logout)

  unfoldable pub each_extra : List ExtraClient → M (Unit {0})
  unfolding extra_client
  each_extra [] = pure tt
  each_extra (item ∷ items) = do extra_client item; each_extra items

  unfoldable pub extra_clients : Config → Option (List ExtraClient) → M (Unit {0})
  unfolding each_extra
  extra_clients cfg decoded =
      if trim_space cfg.seed_extra_clients_json == ""
      then pure tt
      else elim decoded [ none ↦ fail (other "json") | some items ↦ each_extra items ]

  -- `errors.Is(err, domain.ErrConflict)`: the account is there already.
  unfoldable pub settled : {A : Type 0} → Result A → Result (Unit {0})
  settled (ok a) = ok tt
  settled (err conflict) = ok tt
  settled (err e) = err e

  unfoldable pub demo_user : Config → M (Unit {0})
  unfolding settled
  demo_user cfg w =
      if cfg.seed_demo_email == ""
      then (w, ok tt)
      else if trim_space cfg.seed_demo_password == ""
      then (w, err (other "IDENTITY_SEED_DEMO_PASSWORD is required when seeding a demo user"))
      else let input : RegisterInput = record {
        email = cfg.seed_demo_email;
        password = cfg.seed_demo_password;
        name = cfg.seed_demo_name;
      } in
        let (w', r) = register p input w in (w', settled r)

  unfoldable pub create_demo : String → String → M Organization
  create_demo actor_id name = do
    now ← clock
    id ← new_id p
    let org : Organization = record { id = id; name = name; created_at = now }
    call λ s. create_organization s org
    call λ s.
        add_organization_member s
          (record { org_id = id; user_id = actor_id; role = org_role_owner; joined_at = now })
    pure org

  unfoldable pub demo_organization : Config → M (Unit {0})
  unfolding create_demo
  demo_organization cfg w =
      if cfg.seed_demo_email == ""
      then (w, ok tt)
      else elim (get_by_email p.to_lower w.store cfg.seed_demo_email) [
        | err _ ↦ (w, ok tt)
        | ok u ↦ elim (list_organizations_for_user w.store u.id) [
          | err e ↦ (w, err e)
          | ok [] ↦ (create_demo u.id "Demo Organization" >>= λ org. pure tt) w
          | ok (org ∷ orgs) ↦ (w, ok tt)
        ]
      ]
