-- ===== src/Lib.antt =====
-- The server of pf-identity, an OAuth 2 and OpenID Connect identity provider, whose Go sources
-- stand in apps/server/internal. Browsers register and log in by forms (web/account.go), relying
-- parties send them to the authorization endpoint (web/authorize.go), which issues codes after
-- consent, and redeem the codes at the token endpoint (web/token.go), which issues access,
-- refresh and ID tokens. A logout (web/end_session.go) ends the browser's session and tells the
-- relying parties that it signed in to. Users found and switch organizations (web/orgs.go), and
-- the holder of the administrator's token manages clients, users and organizations
-- (web/admin.go, web/admin_orgs.go). All of these go through services (account, session, org,
-- oidc, ratelimit) to one store, behind the interfaces of domain/repos.go.
--
-- Files, each with the source it is about:
--   Domain: domain/domain.go, domain/errors.go. Go's `(T, error)` is `Result T`.
--   Store and its children: store/memory/store.go and orgs.go, a function `Store -> Store ×
--     Result` for each method. A Go map is an association list (Common/Maps). Store/History:
--     sequences of the writing methods, which the mutex makes single steps.
--   OAuth/Scope, OAuth/Redirect, OAuth/Pkce: oauth.
--   Password: password/password.go. Session: session/service.go. Account: account/service.go.
--     RateLimit: ratelimit/limiter.go. Org: org/service.go and claims.go. Oidc: oidc/signer.go.
--     Config: config/config.go, the settings, and in Config/Env how they are read from the
--     environment. Seed: seed/seed.go, the rows that the server starts with.
--   World: the state between requests (the store, the clock, the pending authorization
--     requests and the limiter of web/server.go, the cookies sent), and random/random.go and
--     id/id.go.
--   Web/Http, Web/Csrf, Web/Current: requests, responses, web/csrf.go, web/audit.go, and who
--     makes a request (web/server.go). Web/Issue and Web/Token: web/token.go. Web/Authorize:
--     web/authorize.go. Web/Account: web/account.go. Web/Logout, Web/Notices and Web/EndSession:
--     web/end_session.go, with handleLogout and handleHome of web/account.go. Web/Orgs:
--     web/orgs.go. Web/Admin and Web/AdminOrgs: web/admin.go and web/admin_orgs.go, with their
--     views in Web/Views. Web/Routes: the table of routes in web/server.go.
--   Platform: what the code calls and does not contain (net/url, net/mail, crypto, base64,
--     argon2, the JWT library, ULIDs, strings.ToLower), a parameter of every definition that
--     uses it. Theorems that rely on its behaviour name that as a hypothesis: lower-casing twice
--     is lower-casing once, base64 decodes what it encoded and has no dollar sign, argon2 gives
--     a key of the length asked for.
--   Children that hold no code are named for what they prove: Store/History/Keys,
--     Web/AdminOrgs/Reach (from the numbers of owners in Owners over the stores in Kept to the
--     handlers in Led and Founded), Web/AdminOrgs/Last, Web/Admin/Guard, Secrets, Uris and
--     Disabled, Web/Authorize/Frame, Grants, Answers, Parts and Directed,
--     Web/EndSession/Checked, Target, Told and Heard, Config/Profile, Seed/Again.
--   Tests: a concrete platform and runs at concrete inputs.
--
-- Bounds: times and durations are natural numbers of nanoseconds, without the wrap-around of
-- int64, which takes 292 years. A request reads the clock once. A handler is one step of the
-- state, so the interleavings of two handlers are left out, save in Store/History, whose steps
-- are single calls of the store. The one recursion on fuel is the caller that follows the pages
-- of the audit trail; one request more than there are events is enough. Sorting is stable where
-- Go's sort.Slice leaves equal elements in any order, and a range over a map meets the entries
-- in the order of the list.
--
-- Not modelled: the PostgreSQL store (SQL, run by a library), the matching of paths to routes,
-- templates, response headers other than cookies, the rewriting of a relative target by
-- http.Redirect (a redirect holds the target that it is called with), the encoding of JSON (a
-- handler takes the decoded body), the static documents (health, discovery, keys), what a
-- relying party answers to a posted logout token, key handling, log lines, the server process,
-- and the TypeScript applications.
pub mod Common
pub mod Domain
pub mod Platform
pub mod Store
pub mod OAuth
pub mod World
pub mod Password
pub mod Seed
pub mod Session
pub mod Account
pub mod RateLimit
pub mod Org
pub mod Oidc
pub mod Config
pub mod Web
pub mod Tests
