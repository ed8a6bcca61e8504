-- ===== src/Lib.antt =====
-- TAYMEX: the domain logic of the commerce platform, in the layers of the repository.
--
-- The program. `packages/foundation` holds what every other part uses: application errors, input
-- validation, exact decimals, money and quantities. `apps/api/src/modules/catalog/domain` is the product
-- aggregate, and `application` beside it the service that checks permissions, runs the aggregate and
-- stores the result through a repository. `packages/identity` holds accounts, sessions, roles, the
-- sign-in flow and the throttle of failed sign-ins, `packages/settings-runtime` the settings with their versions,
-- `packages/notifications` the outbox of the secrets that are mailed, and `apps/api/src/platform` the
-- limits of a process.
-- A function that can throw is a function into `Result`; a method that changes a shared object is a
-- function that also returns the new state.
--
-- The files.
-- - Prelude: the shared names and lemmas on lists, texts and integers. A text is a list of UTF-16
--   code units.
-- - Effects: asynchronous methods over shared state, queries, and the transaction boundary of
--   packages/data-postgres/src/atomic.ts. The state under `atomic` is what the transaction covers; a
--   sink outside it, such as the log, is not taken back.
-- - Foundation/Errors, Validation, Decimal, Money, Quantity: packages/foundation/src/errors.ts,
--   validation.ts, decimal.ts, money.ts and quantity.ts. A `number` argument is a `Number`: a natural number or
--   anything else, which every check refuses alike; a `Date` is a time or invalid. Messages for
--   the log are left out, codes and message keys are kept.
-- - Catalog/Product: apps/api/src/modules/catalog/domain/product.ts.
-- - Catalog/Repository, Catalog/Service: catalog-product-repository.ts,
--   catalog-products-service.ts, catalog-products-authorization.ts and catalog-products-settings.ts
--   of apps/api/src/modules/catalog/application. The repository is a record of operations and a
--   record of what an adapter promises; the permission check, the resolved page size, the clock and
--   the next id are parameters. Catalog/Memory is one repository that keeps the promises.
-- - Notifications/Contracts, Outbox, Processor: contracts.ts and outbox.ts of
--   packages/notifications/src. A message's attempts are bounded by the limits of the processor; a pass
--   goes through the list of the jobs that it claimed. The codec, the provider, the clock and the ids
--   are parameters. The counters of a pass stand beside the state.
-- - Notifications/Store: packages/notifications/src/postgres-store.ts, over the table of
--   packages/data-postgres/migrations/0003_f7_outbox.sql as the list of its rows.
-- - Data/Idempotency: packages/data-postgres/src/idempotency.ts, over its table as a function from an
--   operation and a key to an optional row. The hash of a request is a text that the caller gives, and
--   what JSON.stringify, the column and the driver make of a response is a parameter.
-- - Settings/MemoryStore: packages/settings-runtime/src/memory-store.ts.
-- - Settings/Contracts, Checks, Service: contracts.ts, service.ts and errors.ts of
--   packages/settings-runtime/src. The store is a record of operations; the store in memory is one, in
--   Settings/Service/Memory. The recorder of the audit and the resolution of a setting are parameters.
-- - Platform/RateLimiter, AuthenticationThrottle, SessionCookie: process-rate-limiter.ts,
--   process-authentication-throttle.ts and session-cookie.ts of apps/api/src/platform.
-- - Identity/Account: packages/identity/src/account.ts; NFKC and lower case are a parameter.
-- - Identity/Actor, Identity/Roles: packages/identity/src/actor.ts, privileged.ts and roles.ts. The
--   store, the sink of events, the catalogue and the permission check are parameters; what runs in
--   a transaction is under `atomic`.
-- - Identity/Contracts, Password, Authentication: contracts.ts, password.ts and authentication.ts of
--   packages/identity/src, with the errors of errors.ts. The service is a record of what its
--   constructor is given; a lookup is a query, which cannot write. SignIn, Sessions, Passwords and
--   Accounts hold its methods; the clock is read once in each, so the time is an argument. The hasher,
--   the tokens, the ids, the throttle and the sinks are parameters.
-- - Identity/Persistence: packages/identity/src/persistence/postgres-identity-repository.ts, over the
--   tables of packages/data-postgres/migrations/0001_foundation.sql as lists of rows. A statement
--   is one step; one that breaks a constraint of the tables is an error and changes nothing.
-- - Identity/Session, Identity/Throttle: packages/identity/src/session.ts and throttle.ts. The
--   throttle's map is a function from principals to optional entries.
-- - Examples, in each part: its theorems at concrete inputs.
--
-- Fuel. `print_from`, the digits of a number, takes fuel; `print` gives it one more than the
-- number, and Foundation/Decimal/Digits shows that the digits read back as the number.
--
-- Not modelled: the web application, the HTTP controllers, the other stores in PostgreSQL, hashing
-- and random numbers, generated registries, audit, media and logging, which call frameworks and
-- services.
pub mod Catalog
pub mod Data
pub mod Effects
pub mod Foundation
pub mod Identity
pub mod Notifications
pub mod Platform
pub mod Prelude
pub mod Settings
