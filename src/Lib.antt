-- ===== src/Lib.antt =====
-- A model of the Crit Alarm server: it takes messages for topics, opens an incident for a critical
-- one, rings the devices of the account until somebody answers, and sends each enrolled device a weekly
-- check. The server is one process over one SQLite database. Its parts here:
--
-- * The incident engine, src/incident/service.ts. Messages of a critical topic open an incident or join
--   the active one; the two routes acknowledge and close; the scanner calls `scanDue`, which carries
--   out the timers that have come due. Incident/Types holds the rows, Incident/Statements the SQL
--   statements, Incident/Publish `publishCritical`, Incident/Actions `acknowledge` and `close`,
--   Incident/Scan `scanDue`, Incident/Reads `get` and `list`. Incident/Invariant, Runs, Lifecycle,
--   Replies, Due, Publishing and Reads/Isolation hold the proofs.
-- * The weekly check, src/check/store.ts and src/check/schedule.ts. The scan asks `due` for devices,
--   `plan` for a push, `confirm` just before it leaves, and `record` afterwards; the routes call
--   `enable`, `disable`, `view`, `rounds` and `receipt`. Check/Types holds the rows, Check/Statements
--   the reads and single-row writes, Check/Close how a round opens and ends, Check/Plan and
--   Check/Receipts the rest, Check/CheckId the format of a check id, Check/Schedule the slots.
--   Check/Closed, Runs, Sends, Confirm, Results and Repeats hold the proofs.
-- * The scan of the weekly check, src/check/scheduler.ts, src/push/check.ts and src/check/device-hooks.ts.
--   Check/Scan writes the alarm notes, asks `due`, `plan` and `record`, and Check/Scan/Senders asks
--   `confirm` before each request to APNs or FCM. Check/Scan/Departures holds the proofs.
-- * Pushes, src/push. `dispatch` takes the events of the incident engine: Push/Dispatcher picks the
--   devices of the owning account and sends to each, Push/Activities updates the Live Activities and
--   goes over the batch. Push/Apns and Push/Fcm make the requests, Push/Hosts retries and turns to the
--   other APNs host. Push/Tally, Push/Unmoved, Push/Recipients, Push/Hidden and Push/Hosts hold
--   the proofs.
-- * Devices and accounts, src/tier/devices.ts, src/tier/device-tokens.ts, src/tier/subscriptions.ts,
--   src/tier/auth.ts and src/v1/accounts.ts: Accounts/Credentials, Accounts/Devices
--   with Accounts/Devices/Registering (`registerDevice`), Accounts/Tokens,
--   Accounts/Identities (`linkIdentity`, `switchAccount`), Accounts/Merge (`mergeAccounts`) and
--   Accounts/Erase (`deleteAccountRequest`, `deleteAccount`). Accounts/Devices/Capped,
--   Accounts/Identities/Live, Moved and Effects, Accounts/Merge/Pending and Kept, and
--   Accounts/Erase/Links, References and Effects hold the proofs.
-- * The rate limits, src/rate-limit.ts: RateLimit/Rolling and RateLimit/Daily. RateLimit/Rolling/Refinement
--   and RateLimit/Daily/Passes hold the proofs.
-- * Publishing, src/ingress/service.ts: Ingress/Publish checks the cap of heads-ups (Tier/Caps and
--   Tier/P4Usage, src/tier/caps.ts and src/tier/p4-usage.ts), hands an alarm to the incident engine or
--   stores a plain message, and dispatches the events. Ingress/Storing holds the proofs.
-- * Purchases, src/tier/revenuecat.ts: Tier/Purchases applies a purchase event to the account that its
--   billing id belongs to. Tier/Purchases/Steps holds the proofs.
-- * The reads of the purchase store, src/tier/billing-reads.ts and src/tier/entitlement-read.ts:
--   Tier/Reads is the queue and the reads that are out, Tier/Reads/View reads the pages of a customer's
--   list, and Tier/Reads/Apply writes a result. Tier/Reads/Fence, Failed and Flights hold the proofs.
-- * Packs, src/tier/packs.ts: Tier/Packs works out the one entry of a pack that an account holds.
--   Tier/Packs/Best holds the proofs.
-- * Retention, src/retention/prune.ts: Retention/Prune deletes ended incidents, old messages and ended
--   check rounds, with what the foreign keys delete along. Retention/Kept holds the proofs.
-- * The counters, src/stats/counters.ts: Stats/Counters. The check adds to them, and so do the events
--   of the incident engine.
--
-- Prelude has the Boolean tests, a table as the list of its rows with SELECT, UPDATE and DELETE, and a
-- Map as the list of its entries, with their lemmas.
--
-- A record of tables stands for the database, and each operation is a function from the store to its
-- answer and the store that it leaves. One operation runs in one transaction, so a thrown error leaves
-- the store as it was. Row and account ids are opaque in the code, so they are numbers; ids and other
-- values that the code draws at random come from a generator that is an argument, with the hypothesis
-- `IsFresh` where a theorem needs two ids to differ. The clock is an argument: each operation is given
-- what it reads, once per operation, except `scanDue`, which reads it for every timer and is given a
-- function. Times are whole seconds, natural numbers; where the code subtracts below zero the model
-- compares sums instead. `slotAtOrAfter` takes a JavaScript remainder of a number that may be negative;
-- the model writes out both signs. No number of the code is near 2 ^ 53, so none wraps. ORDER BY is an
-- insertion sort by the columns that the statement names; rows that tie keep their order. Every other loop
-- runs over a list, so there is no fuel; `followMerge` makes at most eight hops, as in the code. A
-- publish over ingress is not one transaction: the charge stays when the dispatch fails, and so does
-- the message. The day of a counter is its number of days since the epoch, which the code writes as
-- text. SHA-256, HMAC and the random round ids of the check are fields of the record `Outside`, an
-- argument.
--
-- A provider or a purchase store is a function that may give any answer, or none where it throws, and
-- may depend on what was asked before. Where the code waits for one, the scan of the check lets the
-- rest of the server change the store in any way; a read of the purchase store begins and ends in two
-- operations with any others between. The erase of an account waits for the revoker of its sign-in
-- tokens, which may come back with any other store. A dispatch is given as one run: nothing else
-- writes while it waits. The loop of `liveAccount` and that of `accountFamily` have eight turns, as in
-- the code, and the pages of a list are at most ten.
--
-- Not modelled: HTTP routes and JSON, configuration, the HTTP server and the command line (glue); APNs,
-- FCM, DNS and billing (remote services) with the HTTP/2 session and the signing of tokens; opening the
-- database and its migrations; and, of the program's own logic, the parsing of published headers,
-- topics, the daily sweep of purchases, the relay and the client addresses that the rate limits are
-- keyed with.
pub mod Prelude
pub mod Incident
pub mod Push
pub mod Accounts
pub mod RateLimit
pub mod Stats
pub mod Tier
pub mod Ingress
pub mod Retention
pub mod Check
