-- ===== src/Store/Clients.antt =====
-- Relying parties in the process-local store: `CreateClient` to `SetClientSecret` of
-- apps/server/internal/store/memory/store.go, and `sortClients`.
use pf_identity.Common.{String, List, none, some, less_text, find, store_at, values}
use pf_identity.Common.Sorting.{sort}
use pf_identity.Domain.{Result, ok, err, conflict, not_found, or_not_found, Client, ClientPatch}
use pf_identity.Store.{Store, Written}

unfoldable pub create_client : Store → Client → Written
create_client s c = elim (find s.clients c.id) [
  | some _ ↦ (s, err conflict)
  | none ↦ (record s { clients = store_at s.clients c.id c }, ok tt)
]

unfoldable pub get_client : Store → String → Result Client
get_client s id = or_not_found (find s.clients id)

unfoldable pub sort_clients : List Client → List Client
sort_clients = sort λ a b. less_text a.id b.id

unfoldable pub list_clients : Store → Result (List Client)
unfolding sort_clients
list_clients s = ok (sort_clients (values s.clients))

-- The client's fields under a patch: the secret and the type stay.
unfoldable pub apply_patch : Client → ClientPatch → Client
apply_patch c patch = record c {
  name = patch.name;
  redirect_uris = patch.redirect_uris;
  post_logout_redirect_uris = patch.post_logout_redirect_uris;
  front_channel_logout_uri = patch.front_channel_logout_uri;
  back_channel_logout_uri = patch.back_channel_logout_uri;
}

unfoldable pub update_client : Store → String → ClientPatch → Written
unfolding apply_patch
update_client s id patch = elim (find s.clients id) [
  | none ↦ (s, err not_found)
  | some c ↦ (record s { clients = store_at s.clients id (apply_patch c patch) }, ok tt)
]

unfoldable pub set_client_secret : Store → String → String → Written
set_client_secret s id secret_hash = elim (find s.clients id) [
  | none ↦ (s, err not_found)
  | some c ↦
      (record s { clients = store_at s.clients id (record c { secret_hash = secret_hash }) }, ok tt)
]
