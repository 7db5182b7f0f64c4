-- ===== src/Store/Consents.antt =====
-- Consents in the process-local store: `PutConsent` and `GetConsent` of
-- apps/server/internal/store/memory/store.go.
use Prim.Native.String
use pf_identity.Common.{String, find, store_at}
use pf_identity.Domain.{Result, ok, or_not_found, Consent}
use pf_identity.Store.{Store, Written}

-- `userID+"|"+clientID`
unfoldable pub consent_key : String → String → String
consent_key user_id client_id = String.◌++◌ user_id (String.◌++◌ "|" client_id)

unfoldable pub put_consent : Store → Consent → Written
put_consent s c =
    (record s { consent = store_at s.consent (consent_key c.user_id c.client_id) c }, ok tt)

unfoldable pub get_consent : Store → String → String → Result Consent
get_consent s user_id client_id = or_not_found (find s.consent (consent_key user_id client_id))
