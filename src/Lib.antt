-- ===== src/Lib.antt =====
-- Flakey, a self-hosted dashboard for test results: the core of its backend. A client uploads the
-- report of a test run; the backend stores it, merges the shards of one CI run, counts failures by
-- fingerprint, mutes known flaky tests, answers whether a suite may ship, and keeps an audit log.
--
-- Prelude: Booleans, lists, tables with numeric keys, trim, and the numbers and dates of JavaScript.
-- Run: one upload.
--   Run/Data (backend/src/types.ts): NormalizedRun and its parts.
--   Run/Store: the tables runs, specs, tests, releases and error_groups as one record Db.
--   Run/Merge (backend/src/run-merge.ts): findOrCreateRun is find_or_create_run,
--     recalculateRunStats is recalculate_run_stats. Shards and Laws hold the theorems.
--   Run/Upload (backend/src/routes/runs.ts): the transaction of POST /runs is upload, with
--     upsert_spec, replace_tests and attach_release for its steps; Upload/Fresh says what its rows
--     of tests hold.
--   Run/Status (backend/src/run-status.ts) and Run/Badge (backend/src/routes/badge.ts and
--     GET /runs/status): the two answers to whether a suite is green.
-- Triage: the groups of failures with one fingerprint.
--   Triage/Recurrence (backend/src/error-recurrence.ts), which upload calls.
--   Triage/Priority and Triage/Autoclose (backend/src/error-automation.ts, and the sweep
--     autocloseStaleErrorGroups of backend/src/retention.ts).
-- Quarantine: muted tests.
--   Quarantine/Lifecycle (backend/src/quarantine-lifecycle.ts) and Quarantine/Display
--     (frontend/src/lib/utils/quarantine-display.ts).
--   Quarantine/Table (backend/src/routes/quarantine.ts): POST and DELETE.
--   Quarantine/Auto (backend/src/auto-quarantine.ts) and Quarantine/Sweep (expireQuarantines of
--     backend/src/retention.ts), the two writers that no user starts. An INSERT of the first may fail;
--     Auto/Turns is its loop without failures, Auto/Failures joins the two.
--   Quarantine/Gate (backend/src/git-providers/index.ts): the commit status, which quarantines
--     soften, while the badge does not read them.
-- Audit: the hash chain.
--   Audit/Json (canonicalJson) and Audit/Chain (backend/src/audit-chain.ts, backend/src/audit.ts).
--   Audit/Export (backend/src/audit-export.ts): flushConfig as flush_config. Ticks says what one tick
--     sends, History mixes ticks with the appends of Audit/Chain, Drained is a tick without failures.
-- Secret (backend/src/crypto.ts): Secret/Envelope has encryptSecret, decryptSecret and rotateSecret as
--   encrypt_secret, decrypt_secret and rotate_secret; Secret/Rotation holds the theorems.
-- Live (backend/src/live-events.ts): the runs in progress in one process. Live/Bus has the state, a
--   function per method, one per timer, and perform_all for any order of calls and timers; Live/Keys
--   follows one run through an operation; Live/Guard and Live/Stale hold the theorems.
-- Auth: who may ask.
--   Auth/Token and Auth/Gate (backend/src/auth.ts): the claims of tokens, cookies, API keys, and the
--     middleware requireAuth as require_auth. Laws and Sessions hold the theorems.
--   Auth/Login and Auth/Session (backend/src/routes/auth.ts): POST /auth/login with its lockout, and
--     the sessions that login, refresh, logout and switch-org open and end, with resolveOrg as
--     resolve_org. Claims and Rotation hold the theorems.
-- Release (backend/src/routes/releases.ts): a release up to its sign-off.
--   Release/Data: its tables. Release/Testing and Release/Results: the handlers of test sessions and of
--     their results. Release/Readiness: evaluateRule as evaluate_rule. Release/Checklist: the
--     handlers of a release and its checklist, with sign_off for POST /releases/:id/sign-off.
--   Release/Sessions, Deferrals, Signatures, Steps and Reach: what every sequence of the handlers
--     keeps. Release/Rules puts each rule in one condition; Release/SignOff and
--     Tested: what a sign-off says.
-- Normalize (backend/src/normalizers): Normalize/Tally counts tests and specs, Normalize/Mochawesome
--   (backend/src/normalizers/mochawesome.ts) turns a tree of suites into the run that upload takes;
--   so do Normalize/Playwright (playwright.ts, with parsePlaywright as parse_playwright, its Maps as
--   lists of pairs in the order of their keys), Normalize/Jest (jest.ts, parseJest as parse_jest) and
--   Normalize/Webdriverio (webdriverio.ts, parseWebdriverIO as parse_webdriver_io).
-- Schedule (backend/src/scheduled-reports.ts): which scheduled reports a tick sends.
--
-- Conventions. A table is the list of its rows; a serial key is the counter `next`. A transaction
-- is one function, and so are the queries of one request where the source has no transaction: requests
-- run one after the other. Row-level security shows as an explicit organisation id. Times are epoch
-- milliseconds, and the audit log's are ISO text. Numbers are natural, since the modelled code
-- counts and compares; a difference of times is written as a comparison of sums. md5, SHA-256,
-- jsonwebtoken, bcrypt, the cipher and base64 of node, JSON.stringify, the string order of sort,
-- the answer of computeFlakyTests and the latest failure of a fingerprint are parameters. The loop
-- that verifies the audit log takes at most as many batches as the log has rows and one more, which
-- is proved to be enough; a tick of the export takes the source's own bound of 20 batches; the
-- other loops are recursive on lists.
--
-- Not modelled: what follows the commit of an upload (storage, webhooks, comments), the read
-- endpoints that are SQL aggregates, the live streams and their fan-out, the parsers of the other
-- report formats, registration and the protocols of SSO and SCIM, the contents of mail,
-- integrations, the Svelte frontend but for one module, and the packages of reporters and the CLI.
-- They are I/O, third-party protocols, or separate from the state above.
pub mod Prelude
pub mod Run
pub mod Triage
pub mod Quarantine
pub mod Audit
pub mod Live
pub mod Auth
pub mod Release
pub mod Secret
pub mod Normalize
pub mod Schedule
