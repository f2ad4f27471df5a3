-- ===== src/Lib.antt =====
-- absolute-auth is an authentication library for TypeScript servers. This development models its
-- OpenID provider, the part that issues tokens (the in-memory stores, the flows that write them
-- and the grants of the token endpoint), the lockout after failed logins, the risk of a login, the challenges of
-- multi-factor authentication, organizations, their invitations and roles, API keys and the client-credentials grant, the relationship-based
-- access check, the WebAuthn challenges, the hash chain of the audit log, and webhook deliveries.
-- They share no state: a login route calls the lockout guard, parks a session for a second factor
-- and appends audit events, the provider is mounted beside it, the passkey routes save and consume
-- challenges, every event is dispatched to the webhooks, and the application asks the access check
-- and resolves API principals.
--
-- Every in-memory store is a JavaScript Map behind asynchronous methods. A method is a function
-- here from the Map to its result and the Map that is left; between two awaits the code runs
-- alone, so a method is one step, and a sequence of steps is a sequence of calls. A grant calls
-- several methods: its definition runs them with no other request between them; Race has the
-- halves of two refresh requests in turns. What the code reads from outside is an argument: the
-- clock (one argument for each reading), random values (Fresh), hashing, signing and DPoP
-- verification (Primitives, Runtime), JSON text, JWT decoding, verification and key fetching (JwtPrimitives), and the
-- application's hooks (Config).
--
-- Files, and the code under src/ that each one models:
--   Prelude        Boolean tests, lists, arrays
--   JsMap          Map: get, set, delete, deletion loops, searching and updating loops; its laws
--   Json           objects of claims
--   Oidc.Types     oidc/types.ts: the records
--   Oidc.Provider  oidc/config.ts: configuration and primitives
--   Oidc.Codes     createInMemoryAuthorizationCodeStore
--   Oidc.Refresh   createInMemoryOidcRefreshTokenStore, oidc/refreshFamilies.ts; its children have
--                  the invariant (Validity), rotation and reuse (Reuse), that each call keeps the
--                  invariant (Preserved), and sequences of calls (Steps)
--   Oidc.Ledger    the ledger of assertion ids, initial access tokens, pushed requests, WebSocket
--                  tickets, registration tokens (oidc/inMemoryStores.ts)
--   Oidc.Claims, Oidc.Tokens   buildAccessClaims and issueTokenSet (oidc/config.ts)
--   Oidc.Device, Oidc.Backchannel   the two flows that end with a poll of the token endpoint: stores
--                  and operations (oidc/inMemoryStores.ts, oidc/config.ts)
--   Oidc.ClientAuth  verifyClientAssertion (oidc/clientAuth.ts) and authenticateTokenClient
--                  (oidc/routes.ts)
--   Oidc.Grants    grantAuthorizationCode and grantRefreshToken (oidc/routes.ts): Code, Replay and Race
--   Oidc.Tests     runs at concrete requests
--   Lockout        createInMemoryLockoutStore and createLockoutGuard (lockout/), with Laws and Tests
--   Fga            createInMemoryWarrantStore and check (fga/), with Steps, Sound, Found and Tests; an evaluation
--                  runs alone up to its next read, and a step answers any one of the pending reads
--   Webauthn       createInMemoryWebAuthnChallengeStore (webauthn/challengeStore.ts), with Laws and
--                  Tests
--   Crypto         base32, HOTP, TOTP and the constant-time comparison (crypto.ts): Base32, Totp; Laws
--                  has the round trip, Window what a check accepts
--   Mfa            createInMemoryMfaStore and getMfaFactors (mfa/), with Sms (its SMS operations),
--                  Challenge (the POST handler of mfa/challenge.ts for TOTP and backup codes), Attempts
--                  (the limit on codes), Fits and Laws (what a session was checked for), Once and
--                  Spent (backup codes); a request whose factor is 'sms' is not modelled
--   ApiKeys        keys, clients and tokens with their in-memory stores (apikeys/), with Exchange (the
--                  client-credentials grant) and Resolve (the principal of a request)
--   Organizations  createInMemoryOrganizationStore (organizations/), with Operations
--                  (organizations/operations.ts) and Roles (roles/): the role store and the permission
--                  resolver; Laws has the invitations, Permissions and Assigned what their names say
--   Adaptive       the risk engine (adaptive/): the stores, and in Engine the signals, the two verdicts
--                  and what is recorded; the distance of a journey is a parameter
--   StatusList     the bitmap of a credential status list (vc/statusList.ts), as the table that it holds
--   Webhooks       createWebhookDispatcher and createInMemoryWebhookDeliveryStore (webhooks/); the replies
--                  of the servers are an argument, and the deliveries of one event are a list in the
--                  order in which they end
--   Sessions       createInMemoryAuthSessionStore, the read of a session with its expiry and the
--                  sessions of a user (session/), and in Cleanup the cleanup of the store, with what
--                  it keeps in Swept; promises that are awaited together run in the order of
--                  their list
--   Audit          the hash chain over the audit log (audit/integrity.ts), with the two steps of an append;
--                  Chain, Tamper and Overlap have what passes the check and what does not
--
-- Names follow the code, in snake case. Times are milliseconds as natural numbers, an optional
-- field is an Option, a Set is a list in insertion order, a thrown error is a constructor or
-- none. No definition runs out of fuel: every loop of the code is over a finite Map or array or
-- counts to a configured number of attempts, and the depth of an access check is the code's own
-- limit. A 64-bit counter keeps its wrap-around.
--
-- Not modelled: the HTTP dispatch and pages, the PostgreSQL stores (SQL through an ORM),
-- signature algorithms, the audit sinks under the chain, and the directories that the list does
-- not name.
pub mod Adaptive
pub mod ApiKeys
pub mod Audit
pub mod Crypto
pub mod Fga
pub mod JsMap
pub mod Json
pub mod Lockout
pub mod Mfa
pub mod Oidc
pub mod Organizations
pub mod Prelude
pub mod Sessions
pub mod StatusList
pub mod Webauthn
pub mod Webhooks
