-- ===== src/Lib.antt =====
-- daja-platform: the rules behind a shop's stock, its devices' synchronisation and its access
-- rights, as the packages and the API of the repository implement them.
--
-- The API's controllers take a request, run one operation of a repository class inside a
-- transaction, and answer. A repository class works on tables. Here an operation is a function
-- from a store to a result and a store (Base/Effect): an error ends it and keeps what was written
-- so far, and it is the transaction that undoes that.
--
-- Base: lists with native lengths, integers, tests, actions, and rules for what actions keep.
-- Security: packages/security/src/index.ts, the errors with their codes and statuses.
-- Context: packages/shared/src/index.ts, who makes a request.
-- Transactions: packages/database/src/transaction.ts, `TransactionManager.run`. What the driver
--   answers to each statement is a parameter. A COMMIT that takes effect while its answer is lost,
--   and an error event while COMMIT or ROLLBACK runs, are left out.
-- Inventory: packages/database/src/inventory.ts. `createItem`, `moveItem` and `adjust` on the
--   tables of warehouses, items, events and balances.
-- Json: JSON values, and packages/security/src/redact-credentials.ts.
-- Sync: packages/database/src/sync.ts. The log of events that devices push to and pull from,
--   with its revisions, keys and conflicts, and the registered devices.
-- Idempotency: packages/database/src/idempotency.ts, replies kept under a key.
-- Access: apps/api/src/access-policy.ts, who may hand out roles and manage users, and
--   apps/api/src/sync-authorization.ts, who may push which command.
-- Promotions: apps/api/src/promotions.service.ts. Promotion codes: what a code takes off a cart,
--   how its use is counted, and how promotions are made, changed and copied. Amounts are computed
--   with JavaScript's double-precision numbers, which Promotions/Double models: each is a whole
--   number over a power of 2, and products and quotients are rounded to 53 bits.
--
-- Tokens: packages/security/src/jwt.ts, tokens that are signed and read. JSON, base64url and the
--   keyed hash are a parameter.
-- Sessions: packages/database/src/auth.ts and apps/api/src/auth.service.ts. The sessions of staff
--   with their refresh tokens, NFC cards and access tokens. The service's methods are `refresh`,
--   `login_with_nfc_card`, `bind_nfc_card`, `logout` and `authenticate_access_token`; one request
--   reads one time.
-- Rfid: packages/database/src/rfid.ts and `normalizeEpc` of packages/validation/src/index.ts, tags
--   with their codes and events.
-- Migrations: packages/database/src/migrations.ts. What a file's SQL does, the hash and the lock's
--   times are parameters. `migrateWhenAvailable` is a loop on fuel, one more than the seconds up to
--   its deadline, and Migrations/Waiting shows that this is enough.
-- Orders: packages/database/src/storefront.ts, orders with their items, status and history. The
--   random display ids are a parameter.
-- Resets: packages/database/src/storefront.ts and `resetPassword` of
--   apps/api/src/customer-auth.service.ts, the links for a new password of a customer. The link and
--   the password come hashed; `lower` of SQL, `trim` and `toLowerCase` are parameters.
-- RateLimit: apps/api/src/runtime/shared-rate-storage.ts and apps/api/src/login-attempts.ts,
--   counters that expire.
--
-- An id is a number, since the program only compares ids. Quantities are integers, and a write of
-- one outside the range of its column raises. Time stamps and columns that nothing here reads are
-- left out. The loops are over lists, but for `migrateWhenAvailable` and for the count of bits in
-- Promotions/Double, whose fuel is enough for every number that is rounded there.
--
-- Not modelled: HTTP and its schemas, the SQL server's locks and its concurrent transactions
-- (operations run one after another), queries that only list rows, e-mail, media, imports, and
-- the hash functions. The projector that `pushBatch` calls is a parameter.
pub mod Base
pub mod Security
pub mod Context
pub mod Transactions
pub mod Inventory
pub mod Json
pub mod Sync
pub mod Idempotency
pub mod Access
pub mod Promotions
pub mod Tokens
pub mod Sessions
pub mod Rfid
pub mod Migrations
pub mod RateLimit
pub mod Orders
pub mod Resets
