-- ===== src/Lib.antt =====
-- A model of the booking backend: a multi-tenant service where customers reserve slots at providers,
-- written in Go on Postgres.
--
-- How the parts interact. The catalog (internal/catalog) prices a service with chosen options. The
-- scheduling package (internal/scheduling) turns opening hours, exceptions and existing bookings into
-- the slots of a day. The booking package (internal/booking) checks a request against both, writes the
-- booking in a transaction, and moves it through its life; the table's exclusion constraint decides
-- between requests for the same resource. The auth package (internal/auth) owns accounts, sessions
-- and verification codes; the tenant package (internal/tenant) owns memberships and invitations, and
-- turns a header into a verified scope of an organization. All of them answer with the errors of
-- internal/platform/httpx and reach the database through internal/platform/database.
--
-- Which file models which part:
--   * Prelude and its children: numbers, lists, sorting (Go's `sort.Slice` as an insertion sort),
--     32-bit integers with their wrap-around, text.
--   * Platform/Errors: httpx/errors.go. Platform/Database: the SQLSTATE tests of database.go, `InTx`
--     of tx.go, and the monad `M` of operations on a store of tables. Before each query a turn lets
--     other sessions write and may make the query fail. They write between the statements of a
--     transaction too (READ COMMITTED); a rollback undoes the transaction's own writes only.
--     Platform/Result: pure chains of fallible steps. Platform/Keeps and Platform/Ensures: what
--     operations keep and what they hand back, whatever the turns. Platform/Facts and
--     Platform/Steady: what is known of the store between two statements, where the other sessions
--     respect it. Platform/Turns: the store that the n-th statement sees.
--   * Accounts/Tables: the rows of users, providers, members, invitations, refresh tokens and codes,
--     the clock, and the library functions on texts and bytes that the two packages call.
--   * Auth/Queries: the statements of internal/db/query/users.sql, refresh_tokens.sql and
--     verification_codes.sql. Auth/Tokens: opaque tokens of token.go. Auth/Accounts, Auth/Sessions:
--     service.go. Auth/Verification: verification.go. Auth/Ledger, /Rotation, /Race and /Once,
--     /Replay, /Guesses and /Refusal, /Success are proofs.
--   * Tenant/Models: models.go. Tenant/Queries: the statements of members.sql and invitations.sql.
--     Tenant/Members, Tenant/Invitations, Tenant/Hiring: service.go. Tenant/Access: middleware.go.
--     Tenant/Roster, /Owners and /Staffing, /Offers and /Joining, /Demotion, /Scope, /Placement
--     and /Hired are proofs.
--   * Catalog/Models, Catalog/Pricing: models.go and pricing.go (`BuildQuote`, `checkGroupRules`).
--     Catalog/Pricing/Selection and /Totals are proofs.
--   * Scheduling/Models, Scheduling/Slots with Slots/Keys: `GenerateSlots` of slots.go, its loop and
--     its two maps. Slots/Loop, /Sound, /Order, /Complete, /Booked are proofs. Scheduling/Windows:
--     `ResolveWindows`; Windows/Precedence is its proof. Scheduling/Cache: cache.go, with
--     Cache/Freshness.
--     Scheduling/Hours, with Hours/Apart: the checks on weekly spans in service.go, `assertNoOverlap`.
--     Scheduling/Schedule: `CreateHours`, `ReplaceHours`, `DeleteHours` on the tables of
--     migrations/00006_scheduling.sql, with Schedule/Filed and Schedule/Scopes.
--     Scheduling/Availability: `Availability` and `SlotsForBooking` of service.go, with the queries in
--     Availability/Queries; Availability/Busy and /Unbooked are proofs.
--     Scheduling/TimeOfDay: `ParseTimeOfDay` and `String` of timeofday.go, with TimeOfDay/RoundTrip.
--   * Booking/State: state.go, with State/Lifecycle. Booking/Models: the rows and values of models.go.
--     Booking/Queries: the statements of internal/db/query/bookings.sql with the constraints of
--     migrations/00007_bookings.sql. Booking/Insert: codes, `insertOnce`, `tryResource`,
--     `insertBooking`. Booking/Create: `Create` and `resourcesForStart`; what it calls of the other
--     packages is the record `Ports`. Booking/Transition: `Transition`, `CancelAsCustomer` and the
--     single reads. Booking/Operations, /Overlap, /History, /Filed, /Asked and /Created,
--     /Moved, /Answers are proofs.
--   * The Tests modules run the theorems at concrete inputs.
--
-- Bounds and fuel. The loop of `GenerateSlots` has no bound in the source, so `scan_from` takes fuel;
-- Slots/Loop shows how much is enough for steps of a minute or more, and that none is for less;
-- Scheduling/Availability gives it `rounds` of the day's windows. The retries of `tryResource` (three)
-- and `reserveCode` (five) are the source's own. Prices and durations are integers that are wrapped to
-- 32 bits where the source computes with `int32`. Instants are nanoseconds from Go's zero time, as
-- natural numbers; a zone is an abstract map from the minutes of a local day to instants. Uuids are
-- natural numbers.
--
-- An operation reads the clock once, but for `availability`, whose readings are a `Clock`. A local day
-- is taken to begin at its midnight when the next day's start is computed. A random text is a number
-- drawn from the world, encoded by a parameter.
--
-- Not modelled: providers (their profile, status and slugs), media, the catalog's own services, the
-- other operations of the scheduling service, the list and statistics queries of bookings, the bearer
-- middleware and the parsing of access tokens, `GeneratePassword`, HTTP handlers, configuration,
-- logging and start-up. argon2, SHA-256, base64, the signature of access tokens, the mapping of
-- letters to lower case and the parser of addresses are parameters. Columns that the database fills
-- from its clock are left out. The worker's clean-up of tokens and codes that expired long ago is not
-- modelled. Contexts are not modelled but for the wait between retries, whose cancellation is a fault
-- of that turn.
pub mod Prelude
pub mod Platform
pub mod Catalog
pub mod Scheduling
pub mod Booking
pub mod Accounts
pub mod Auth
pub mod Tenant
