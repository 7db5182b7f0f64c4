-- ===== src/Store/History/Families.antt =====
-- The families of refresh tokens over a history: revoking one is exact and final.
use pf_identity.Common.{
  String, ◌≡◌, true, List, some, arith, ◌==◌, eq_iff, find, find-update_all, All, if◌then◌else◌,
}
use pf_identity.Domain.{RefreshToken}
use pf_identity.Store.{Store}
use pf_identity.Store.History.{Call, run}
use pf_identity.Store.History.SingleUse.{succeeded}
use pf_identity.Store.Tokens.{take_refresh, revoke_family, revoke_member}
use pf_identity.Store.History.Revocation.{
  KeepsRefresh, IsRevoked, run-IsRevoked, take_refresh_revoked,
}

revoke_family_member-IsRevoked :
    (s : Store) (f h : String) (t : RefreshToken)
    → find s.refresh h ≡ some t
    → t.family_id ≡ f
    → IsRevoked h (revoke_family s f).0
unfolding revoke_family revoke_member
revoke_family_member-IsRevoked s f h t found same u e =
    ground (arith, find-update_all (revoke_member f) s.refresh h, eq_iff t.family_id f)

-- After `revoke_family` no token of the family can be rotated again, whatever calls follow, as
-- long as none of them stores a row under the token's hash.
pub revoke_family_final :
    (lower : String → String) (s : Store) (f h : String) (t : RefreshToken) (cs : List Call)
    → find s.refresh h ≡ some t
    → t.family_id ≡ f
    → All (KeepsRefresh h) cs
    → succeeded (take_refresh (run lower (revoke_family s f).0 cs) h) ≡ 0
revoke_family_final lower s f h t cs found same k = take_refresh_revoked _ h (
    run-IsRevoked lower (revoke_family s f).0 cs h k
      (revoke_family_member-IsRevoked s f h t found same))

-- `revoke_family` is exact: it leaves the row of every token outside the family as it was, and of
-- a token in the family it changes the mark `revoked` alone, which it sets.
pub revoke_family_exact :
    (s : Store) (f h : String) (t : RefreshToken)
    → find s.refresh h ≡ some t
    → find (revoke_family s f).0.refresh h
      ≡ some (if t.family_id == f then record t { revoked = true } else t)
unfolding revoke_family revoke_member
revoke_family_exact s f h t found = ground (arith, find-update_all (revoke_member f) s.refresh h)
