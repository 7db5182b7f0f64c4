-- ===== src/Tests/Secrets.antt =====
-- Runs of the administration of clients.
use pf_identity.Common.{
  String, ◌≡◌, ◌≢◌, refl, true, List, [], ◌∷◌, some, arith, All, find, store_at,
}
use pf_identity.Common.Text.{trim_space}
use pf_identity.Domain.{ok, Client}
use pf_identity.OAuth.Redirect.{parse_redirect_uri, check_redirect}
use pf_identity.Password.{hash, phc}
use pf_identity.Store.Clients.{create_client, get_client, set_client_secret}
use pf_identity.Store.History.Keys.{HasOwnId}
use pf_identity.Tests.Toy.{
  toy, settings, fields_of, empty_request, encode, decode-encode, encode-contains_char,
}
use pf_identity.Web.Admin.{
  choose_client_id, read_patch, make_client, new_secret, client_id_pattern, normalize_optional_uris,
  normalize_optional_uri, gather_uris, conflict_or_store, ClientInput, admin_create_client,
  admin_rotate_secret, require_admin, normalize_redirects,
}
use pf_identity.Web.Admin.Secrets.{
  admin_create_client-authenticates, admin_rotate_secret-authenticates,
}
use pf_identity.Web.Admin.Uris.{HasNoRepeats, Parses, normalize_redirects_sound}
use pf_identity.Web.Current.{bearer}
use pf_identity.Web.Http.{Request, json, next}
use pf_identity.Web.Issue.{authenticate_client, credentials}
use pf_identity.Web.Views.{AdminClientView, view_client, client_created, secret_body}
use pf_identity.World.{World, random_token, bytes}
use pf_identity.Tests.Admins.{by_admin, here}

abbrev cli_input : ClientInput
cli_input = record {
  id = "cli";
  name = "Cli";
  client_type = "confidential";
  redirect_uris = "https://cli.example/cb" ∷ " https://cli.example/cb" ∷ [];
  post_logout_redirect_uris = [];
  front_channel_logout_uri = "";
  back_channel_logout_uri = "";
}

abbrev cli_view : AdminClientView
cli_view = record {
  id = "cli";
  name = "Cli";
  client_type = "confidential";
  redirect_uris = "https://cli.example/cb" ∷ [];
  post_logout_redirect_uris = [];
  front_channel_logout_uri = "";
  back_channel_logout_uri = "";
  token_endpoint_auth = "client_secret_basic";
  has_secret = true;
}

-- The secret that the first draw of the toy platform gives, and the third.
abbrev first_secret : String
first_secret = ".11111111111111111111111111111111."

abbrev third_secret : String
third_secret = "11.11111111111111111111111111111111."

abbrev cli_sends : String → Request
cli_sends secret = record empty_request { basic_auth = some ("cli", secret) }

abbrev created : World
created = (admin_create_client toy settings by_admin (some cli_input) here).0

create_run :
    admin_create_client toy settings by_admin (some cli_input) here
    ≡ (created, next (json 201 (client_created cli_view (some first_secret))))
unfolding admin_create_client require_admin bearer choose_client_id read_patch make_client
    new_secret random_token bytes hash encode trim_space client_id_pattern normalize_redirects
    normalize_optional_uris normalize_optional_uri gather_uris parse_redirect_uri check_redirect
    create_client find store_at view_client conflict_or_store phc
create_run = refl

credentials_run : credentials (cli_sends first_secret) ≡ ("cli", first_secret)
unfolding credentials
credentials_run = refl

admin_create_client-authenticates_example :
    (c : Client) × (authenticate_client toy (cli_sends first_secret) created.store ≡ ok c)
    × (c.id ≡ "cli")
admin_create_client-authenticates_example =
    admin_create_client-authenticates toy decode-encode encode-contains_char (λ plain s. refl)
      settings by_admin (cli_sends first_secret) (some cli_input) here created cli_view first_secret
      create_run credentials_run

abbrev rotation : Request
rotation = record by_admin { path_value = fields_of (("id", "cli") ∷ []) }

abbrev rotated : World
rotated = (admin_rotate_secret toy settings rotation created).0

rotate_run :
    admin_rotate_secret toy settings rotation created
    ≡ (rotated, next (json 200 (secret_body third_secret)))
unfolding admin_create_client require_admin bearer choose_client_id read_patch make_client
    new_secret random_token bytes hash encode trim_space client_id_pattern normalize_redirects
    normalize_optional_uris normalize_optional_uri gather_uris parse_redirect_uri check_redirect
    create_client find store_at view_client conflict_or_store phc admin_rotate_secret get_client
    set_client_secret
rotate_run = refl

cli-HasOwnId : HasOwnId created.store "cli"
unfolding admin_create_client require_admin bearer choose_client_id read_patch make_client
    new_secret random_token bytes hash encode trim_space client_id_pattern normalize_redirects
    normalize_optional_uris normalize_optional_uri gather_uris parse_redirect_uri check_redirect
    create_client find store_at view_client conflict_or_store phc
cli-HasOwnId c found = ground arith

rotated_credentials : credentials (cli_sends third_secret) ≡ ("cli", third_secret)
unfolding credentials
rotated_credentials = refl

admin_rotate_secret-authenticates_example :
    (c : Client) × (authenticate_client toy (cli_sends third_secret) rotated.store ≡ ok c)
    × (c.id ≡ "cli")
admin_rotate_secret-authenticates_example =
    admin_rotate_secret-authenticates toy decode-encode encode-contains_char (λ plain s. refl)
      settings rotation (cli_sends third_secret) created rotated third_secret rotate_run
      cli-HasOwnId rotated_credentials

uris_run :
    normalize_redirects toy ("https://cli.example/cb" ∷ " https://cli.example/cb" ∷ [])
    ≡ ok ("https://cli.example/cb" ∷ [])
unfolding normalize_redirects gather_uris parse_redirect_uri check_redirect trim_space
uris_run = refl

abbrev cli_uris : List String
cli_uris = "https://cli.example/cb" ∷ []

normalize_redirects_sound_example :
    (cli_uris ≢ []) × All (Parses toy) cli_uris × HasNoRepeats cli_uris
normalize_redirects_sound_example =
    normalize_redirects_sound toy ("https://cli.example/cb" ∷ " https://cli.example/cb" ∷ [])
      ("https://cli.example/cb" ∷ []) uris_run
