-- ===== src/Tests/Admins.antt =====
-- Runs of the administration.
use pf_identity.Account.{authenticate}
use pf_identity.Common.{
  inl, Bool-cases, ◌==◌, subst, eq_iff, ℕ, ◌≤◌, String, ◌≡◌, ◌≢◌, refl, sym, ◌∙◌, true, [], ◌∷◌,
  some, inr, arith, find, store_at, values,
}
use pf_identity.Common.Sorting.{sort, insert_sorted}
use pf_identity.Common.Text.{trim_space}
use pf_identity.Domain.{OrganizationMembership, ok, org_role_owner}
use pf_identity.Store.{new_store}
use pf_identity.Store.Orgs.{
  create_organization, add_organization_member, get_organization, get_organization_membership,
  list_organization_members, joined_before,
}
use pf_identity.Store.Users.Index.{IsIndexed}
use pf_identity.Store.Users.{set_user_disabled, get_by_id}
use pf_identity.Tests.Toy.{
  toy, settings, stocked, world_at, ann, fields_of, fields_or, empty_request, distinct, encode,
}
use pf_identity.Web.Admin.{require_admin, missing_or_store}
use pf_identity.Web.Admin.{handle_admin_set_disabled}
use pf_identity.Web.Admin.Disabled.{handle_admin_set_disabled_unrecognized}
use pf_identity.Web.Admin.Guard.{serve_admin-outsider}
use pf_identity.Web.AdminOrgs.{
  admin_remove_member, guard_last_owner, count_owners, OrgInput, count_org_owners,
  admin_create_organization, handle_admin_create_organization, handle_admin_remove_member,
  named_user,
}
use pf_identity.Web.AdminOrgs.{handle_admin_update_member}
use pf_identity.Web.AdminOrgs.Last.{last_owner_refused}
use pf_identity.Web.AdminOrgs.Owners.{owners}
use pf_identity.Web.AdminOrgs.Reach.{
  Reach, starts, follows, elsewhere, admin_founds, removes, Reach-count_org_owners,
}
use pf_identity.Web.Current.{current_user, bearer_user, bearer}
use pf_identity.Web.Http.{Request, http_error, json, fresh_id}
use pf_identity.Web.Routes.{removes_member, serve_admin}
use pf_identity.Web.Views.{AdminUserView, user_body, view_user}
use pf_identity.World.{World}

nobody-bearer : bearer toy empty_request ≡ ""
unfolding bearer
nobody-bearer = refl

serve_admin-outsider_example :
    (text : String) × (serve_admin toy settings removes_member empty_request (world_at stocked 10)
      ≡ (world_at stocked 10, http_error 401 text))
serve_admin-outsider_example =
    serve_admin-outsider toy settings empty_request removes_member (world_at stocked 10)
      (inr (λ e. distinct "" "admin" refl (sym nobody-bearer ∙ e)))

-- The administrator's request about the organization "." and the user "u1".
abbrev pub by_admin : Request
by_admin = record empty_request {
  authorization = "bearer admin";
  path_value = fields_of (("id", ".") ∷ ("userId", "u1") ∷ []);
}

abbrev pub here : World
here = world_at stocked 10

abbrev empty_world : World
empty_world = world_at new_store 10

abbrev with_ann : World
with_ann = world_at (record new_store { users = ("u1", ann) ∷ [] }) 10

abbrev acme : OrgInput
acme = record { name = "Acme"; owner_user_id = "u1"; owner_email = "" }

abbrev founded : World
founded = (handle_admin_create_organization toy settings by_admin (some acme) with_ann).0

abbrev removed : World
removed = (handle_admin_remove_member toy settings by_admin founded).0

removed-Reach : Reach toy settings removed
removed-Reach =
    follows founded removed
      (follows with_ann founded
        (follows empty_world with_ann (starts empty_world refl)
          (elsewhere empty_world with_ann refl refl))
        (admin_founds by_admin (some acme) with_ann))
      (removes by_admin founded)

acme_stored :
    get_organization removed.store "." ≡ ok (record { id = "."; name = "Acme"; created_at = 10 })
unfolding get_organization handle_admin_remove_member admin_remove_member require_admin bearer
    handle_admin_create_organization admin_create_organization named_user get_by_id fresh_id encode
    create_organization add_organization_member find store_at trim_space missing_or_store
    get_organization_membership guard_last_owner count_org_owners list_organization_members
    count_owners values sort insert_sorted joined_before
acme_stored = refl

Reach-count_org_owners_example : (n : ℕ) × (count_org_owners removed.store "." ≡ ok n) × (1 ≤ n)
Reach-count_org_owners_example =
    Reach-count_org_owners toy settings removed "."
      (record { id = "."; name = "Acme"; created_at = 10 }) removed-Reach acme_stored

abbrev disabling : Request
disabling = record by_admin { path_value = fields_of (("id", "u1") ∷ []) }

abbrev disabled : World
disabled = (handle_admin_set_disabled toy settings disabling (some true) here).0

abbrev ann_view : AdminUserView
ann_view = record {
  id = "u1";
  email = "ann@example.com";
  name = "Ann";
  disabled = true;
  created_at = "1.";
}

disable_run :
    handle_admin_set_disabled toy settings disabling (some true) here
    ≡ (disabled, json 200 (user_body ann_view))
unfolding handle_admin_set_disabled require_admin bearer set_user_disabled find store_at get_by_id
    view_user encode trim_space missing_or_store
disable_run = refl

stocked-IsIndexed : IsIndexed (λ s. s) stocked
unfolding find
stocked-IsIndexed = record {
  entry = λ e id h. elim (Bool-cases ("ann@example.com" == e)) [
    | inl hit ↦
        let own : "u1" ≡ id = ground arith in
        (ann, subst (λ k. find stocked.users k ≡ some ann) own refl, (eq_iff _ _).0 hit)
    | inr miss ↦ absurd (ground arith)
  ];
  account = λ id u h. elim (Bool-cases ("u1" == id)) [
    | inl hit ↦
        let one : ann ≡ u = ground arith in
        let own : "u1" ≡ id = (eq_iff _ _).0 hit in
        (
          subst (λ x. x.id ≡ id) one own,
          subst (λ x. find stocked.by_email x.email ≡ some id) one (ground (arith, own)),
          refl,
        )
    | inr miss ↦ absurd (ground arith)
  ];
}

-- Ann's browser, whose session is live.
abbrev ann_browser : Request
ann_browser = record empty_request { cookie = fields_or (("idp_session", "s") ∷ []) }

handle_admin_set_disabled_unrecognized_example :
    ((current_user toy ann_browser disabled).1 ≢ some ann)
    × (bearer_user toy ann_browser disabled ≢ some (ann, []))
    × ((authenticate toy "ann@example.com" "pw" disabled).1 ≢ ok ann)
handle_admin_set_disabled_unrecognized_example =
    handle_admin_set_disabled_unrecognized toy settings (λ e. refl) disabling ann_browser here
      disabled ann_view ann [] "ann@example.com" "pw" stocked-IsIndexed disable_run refl

abbrev ann_owner : OrganizationMembership
ann_owner = record { org_id = "."; user_id = "u1"; role = org_role_owner; joined_at = 10 }

owner_run : find founded.store.org_members "." ≡ some (("u1", ann_owner) ∷ [])
unfolding require_admin bearer handle_admin_create_organization admin_create_organization named_user
    get_by_id fresh_id encode create_organization add_organization_member find store_at trim_space
    missing_or_store
owner_run = refl

alone_run : owners (("u1", ann_owner) ∷ []) ≡ 1
unfolding values count_owners
alone_run = refl

admin_bearer : bearer toy by_admin ≡ "admin"
unfolding bearer trim_space
admin_bearer = refl

demoted_run : trim_space " member" ≡ "member"
unfolding trim_space
demoted_run = refl

ann_found : find (("u1", ann_owner) ∷ []) "u1" ≡ some ann_owner
unfolding find
ann_found = refl

last_owner_refused_example :
    (handle_admin_remove_member toy settings by_admin founded
      ≡ (founded, http_error 403 "cannot remove the last owner"))
    × (handle_admin_update_member toy settings by_admin (some " member") founded
        ≡ (founded, http_error 403 "cannot demote the last owner"))
last_owner_refused_example =
    last_owner_refused toy settings by_admin founded (("u1", ann_owner) ∷ []) ann_owner owner_run
      ann_found (distinct "admin" "" refl) admin_bearer refl alone_run " member" demoted_run
