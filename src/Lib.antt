-- ===== src/Lib.antt =====
-- Multi Academy backend: the server of a school platform, with many schools as tenants.
--
-- The parts that are modelled here are services of web-server, in TypeScript. A request of a school
-- passes the enforcement of the control plane's blocks and the resolution of feature flags, both
-- from a cached configuration of the tenant; then a service runs on the tenant's own database.
--
--   Prelude         helpers: tests, lists, texts, integers, maps, tables with a primary key
--   Http            the exceptions of @nestjs/common and methods as functions of a state
--   Tenant          what every service does first (getTenantDs, assertEnabled) and users' roles
--                   (web-server/src/common/auth/teacher-scope.util.ts)
--   PlatformConfig  web-server/src/platform-config: Config and Foundation for the types and lists,
--                   Snapshot for policy-snapshot.util.ts, Flags for feature-flag.service.ts,
--                   Enforcement for enforcement.service.ts, Runtime for runtime-config.service.ts
--   Cache           web-server/src/common/cache/list-cache.service.ts
--   Payments        web-server/src/financial/gateway-payments.service.ts: Tables for the rows,
--                   Checkout for createCheckout, Settle for settleSuccess, Webhook for
--                   settleFromWebhook, Verify for verify and createInstallmentPlan
--   Finance         Inventory for web-server/src/finance/inventory/inventory.service.ts, Payroll for
--                   web-server/src/finance/payroll/payroll.service.ts, Split for
--                   web-server/src/fees-ops/fees-ops.service.ts
--   Ops             Hostel for web-server/src/ops/hostel/hostel.service.ts, Gate for
--                   web-server/src/ops/gate/gate.service.ts, Library for
--                   web-server/src/library/library.service.ts
--   Timetable       web-server/src/timetable/timetable.service.ts, with Solver for
--                   web-server/src/ai/timetable-solver.service.ts
--   Cbt             web-server/src/cbt/cbt.service.ts
--   Sync            web-server/src/sync/sync.service.ts
--   Auth            web-server/src/common/auth (role-permissions.ts, permissions.guard.ts) and
--                   web-server/src/control-plane/user-authority.service.ts
--   Grading         web-server/src/academic/grading-matrix.service.ts with its defaults
--
-- Names are the source's in the spelling of this library: settleSuccess is settle_success. A table
-- is a list of records, a `Map` an association list, a method a function from the state to a result
-- and the state that it leaves, so that a method that throws keeps what it wrote before. Time, ids
-- and random codes are arguments. In the two caches the work between an `await` and its answer is
-- a step of its own: a call starts a load or a refresh, its end is another function, and any other
-- steps may come between. Only the read of Redis in getConfig is one step with its call, so that an
-- invalidation while it is awaited is left out. In the other services a request is one step: requests come one after
-- another, in any order.
--
-- The environment of a tenant (Tenant.Environment) stands for the flags, the control plane's list
-- of tenants and three functions of the JavaScript runtime. The gateway's answer, the digest of
-- node:crypto, the reading of a number from a text, the safeguarding service's passes and the
-- control plane's answers are parameters.
--
-- There is no fuel: every loop of the modelled code runs over a list. Amounts of money are whole
-- hundredths (in the payroll, tax and net pay are tenths of the request's whole amounts), so that
-- floating point is left out there; scores and totals of the grading matrix are numbers of the
-- runtime, whose operations are a parameter; the points and durations of tests are whole numbers;
-- the bounds 500 and 5000 of the two caches, the times in milliseconds and the 32 bits of an address
-- are the source's.
--
-- Not modelled: schema statements, pages and the order of rows where no decision reads them, the
-- texts of notifications, failures of a primary key for ids that a client chose, the reminders of the payments, the other services of
-- web-server, and the Python servers beside it.
pub mod Prelude
pub mod Http
pub mod Tenant
pub mod Timetable
pub mod Sync
pub mod Cbt
pub mod Auth
pub mod Grading
pub mod Ops
pub mod PlatformConfig
pub mod Cache
pub mod Payments
pub mod Finance
