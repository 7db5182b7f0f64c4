-- ===== src/Tests/Orgs.antt =====
-- Runs of organizations.
use pf_identity.Common.{◌≡◌, ◌≢◌, refl, [], ◌∷◌, All, find, store_at}
use pf_identity.Common.Sorting.{sort, insert_sorted}
use pf_identity.Common.Text.{trim_space}
use pf_identity.Domain.{ok, Organization, OrgMembershipView}
use pf_identity.Org.{
  create, set_active_org, set_active_org_by_sid, primary_org, active_org_id, choose_primary,
  membership_views, views_of, find_view,
}
use pf_identity.Org.Primary.{primary_org_sound, Holds, IsMembership}
use pf_identity.Store.{Store}
use pf_identity.Store.Orgs.{
  create_organization, add_organization_member, get_organization_membership,
  list_organizations_for_user, orgs_of, older_org,
}
use pf_identity.Store.Sessions.{
  get_session_by_sid, set_session_active_org, find_sid, set_session_active_org_by_sid,
}
use pf_identity.Tests.Toy.{toy, stocked, world_at, distinct, encode}
use pf_identity.World.{World, new_id}

abbrev acme : Organization
acme = record { id = "."; name = "Acme"; created_at = 10 }

abbrev founded : World
founded = (create toy "u1" "Acme" (world_at stocked 10)).0

create_run : create toy "u1" "Acme" (world_at stocked 10) ≡ (founded, ok acme)
unfolding create trim_space new_id encode create_organization add_organization_member find
create_run = refl

abbrev active : Store
active = (set_active_org founded.store "u1" "1." ".").0

active_run : set_active_org founded.store "u1" "1." "." ≡ (active, ok tt)
unfolding create trim_space new_id encode create_organization add_organization_member find store_at
    set_active_org get_organization_membership set_session_active_org
active_run = refl

by_sid_run : set_active_org_by_sid founded.store "u1" "sid" "." ≡ (active, ok tt)
unfolding create trim_space new_id encode create_organization add_organization_member find store_at
    set_active_org get_organization_membership set_session_active_org set_active_org_by_sid
    get_session_by_sid find_sid set_session_active_org_by_sid
by_sid_run = refl

abbrev acme_view : OrgMembershipView
acme_view = record { org_id = "."; org_name = "Acme"; role = "owner" }

primary_run : primary_org active "u1" "sid" ≡ ok (acme_view, acme_view ∷ [])
unfolding create trim_space new_id encode create_organization add_organization_member find store_at
    set_active_org get_organization_membership set_session_active_org primary_org membership_views
    list_organizations_for_user choose_primary views_of sort orgs_of insert_sorted active_org_id
    find_view older_org find_sid get_session_by_sid
primary_run = refl

primary_org_sound_example :
    Holds acme_view (acme_view ∷ [])
    × IsMembership active "u1" acme_view
    × All (IsMembership active "u1") (acme_view ∷ [])
primary_org_sound_example =
    primary_org_sound active "u1" "sid" acme_view (acme_view ∷ []) primary_run

active_id : active_org_id active "sid" ≡ "."
unfolding create trim_space new_id encode create_organization add_organization_member find store_at
    set_active_org get_organization_membership set_session_active_org active_org_id find_sid
    get_session_by_sid
active_id = refl

is_active : active_org_id active "sid" ≢ ""
unfolding create trim_space new_id encode create_organization add_organization_member find store_at
    set_active_org get_organization_membership set_session_active_org active_org_id find_sid
    get_session_by_sid
is_active = distinct "." "" refl
