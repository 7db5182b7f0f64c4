-- ===== src/Store/Sessions.antt =====
-- Browser sessions in the process-local store: `PutSession` to `ListSessionClients` of
-- apps/server/internal/store/memory/store.go, and the two writers of the active organization in
-- orgs.go.
use pf_identity.Common.{
  String, List, [], ◌∷◌, Option, none, some, ◌==◌, ◌||◌, if◌then◌else◌, less_text, Dict, find,
  store_at, remove, or_else, member,
}
use pf_identity.Common.Sorting.{sort}
use pf_identity.Domain.{Result, ok, err, not_found, invalid, or_not_found, Session}
use pf_identity.Store.{Store, Written}

unfoldable pub put_session : Store → Session → Written
put_session s sess = (record s { sessions = store_at s.sessions sess.token_hash sess }, ok tt)

unfoldable pub get_session : Store → String → Result Session
get_session s token_hash = or_not_found (find s.sessions token_hash)

-- The loop over all sessions: the first entry with this sid, and its key.
unfoldable pub find_sid : Dict Session → String → Option (String × Session)
find_sid [] sid = none
find_sid ((hash, sess) ∷ m) sid = if sess.sid == sid then some (hash, sess) else find_sid m sid

unfoldable pub get_session_by_sid : Store → String → Result Session
get_session_by_sid s sid = elim (find_sid s.sessions sid) [
  | none ↦ err not_found
  | some (hash, sess) ↦ ok sess
]

-- Whether the deleted session names clients to forget.
unfoldable pub forget_clients : Store → String → Store
forget_clients s token_hash = elim (find s.sessions token_hash) [
  | none ↦ s
  | some sess ↦ if sess.sid == "" then s else record s { sid_rp = remove s.sid_rp sess.sid }
]

unfoldable pub delete_session : Store → String → Written
unfolding forget_clients
delete_session s token_hash =
    let s' = forget_clients s token_hash in
    (record s' { sessions = remove s'.sessions token_hash }, ok tt)

-- `set[clientID] = struct{}{}`
unfoldable pub add_to_set : String → List String → List String
add_to_set x xs = if member x xs then xs else x ∷ xs

unfoldable pub add_session_client : Store → String → String → Written
unfolding add_to_set
add_session_client s sid client_id = if sid == "" || client_id == "" then (s, ok tt) else (
  record s {
    sid_rp = store_at s.sid_rp sid (add_to_set client_id (or_else (find s.sid_rp sid) []));
  },
  ok tt,
)

unfoldable pub list_session_clients : Store → String → Result (List String)
list_session_clients s sid = ok (sort less_text (or_else (find s.sid_rp sid) []))

unfoldable pub set_session_active_org : Store → String → String → Written
set_session_active_org s token_hash org_id = elim (find s.sessions token_hash) [
  | none ↦ (s, err not_found)
  | some sess ↦ (
    record s { sessions = store_at s.sessions token_hash (record sess { active_org_id = org_id }) },
    ok tt,
  )
]

unfoldable pub set_session_active_org_by_sid : Store → String → String → Written
set_session_active_org_by_sid s sid org_id =
    if sid == "" then (s, err invalid) else elim (find_sid s.sessions sid) [
      | none ↦ (s, err not_found)
      | some (hash, sess) ↦ (
        record s { sessions = store_at s.sessions hash (record sess { active_org_id = org_id }) },
        ok tt,
      )
    ]
