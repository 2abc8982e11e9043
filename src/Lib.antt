-- ===== src/Lib.antt =====
-- ControlHub: the API server with its routes, request handlers and two stores, and the hub of the
-- realtime server.
--
-- The API server (services/api) is a set of HTTP handlers, one type per area of the product, that
-- share one store. A handler takes the claims that the middleware left in the request, checks the
-- path, the body and the caller, calls the store, writes an audit entry and sends one response.
-- A handler is modelled as a function from a request and a store to a response and a store; each
-- guard of the source is a step that either answers at once or hands its value on.
--
--   Base        what the components share: tests, lists, maps and 64-bit integers
--   Models      services/api/internal/models/models.go, and the two records of store.go
--   Store       services/api/internal/store/store.go, MemoryStore: one module per group of its maps,
--               the store that a new server starts with (Store/Seed), and the part of the state that
--               most requests leave alone (Store/Frame)
--   Http        Claims of services/api/internal/auth/auth.go, requests, responses, the guards
--   Auth        services/api/internal/auth: passwords and access tokens (auth.go; the round trip
--               of a password in Auth/Passwords), one-time codes (totp.go, in Auth/Totp)
--   Middleware  services/api/internal/middleware/rbac.go: the two guards around a handler
--   Handlers    services/api/internal/handlers: auth, devices, enrollment, sessions, jobs, groups,
--               operations, telemetry, updates, each with child modules for its theorems; Frame says
--               which part of the store each handler writes
--   Postgres    services/api/internal/store/postgres_store.go over the tables of
--               database/migrations: one module per group of methods
--   Fleet       the interface of a store's devices (type Store of store.go), what a store promises
--               of them, and the two stores as implementations (Fleet/Memory, Fleet/Tables)
--   Server      services/api/cmd/server/main.go: the route table (Server/Routes), who gets past the
--               middlewares (Server/Access), the configuration of
--               services/api/internal/config/config.go (Server/Config) and the store that the
--               server starts with (Server/Startup). What a request to any route
--               does to the store (Server/Reach, Server/Effects, Server/Errors), and what follows for
--               sequences of requests to the whole server (Server/Devices, Server/Invitations,
--               Server/Quota, Server/Integrity, Server/Soundness)
--   Hub         services/realtime/internal/hub/hub.go: the register of agents and clients of the
--               realtime server, what it sends to them, which channels it closes (Retirement), and
--               a tick of the watchdog (Watchdog, Steady) and its loop (Loop)
--   Realtime    services/realtime/cmd/server/main.go: its three routes (Endpoints), any sequence of
--               requests to them (Calls), what they do to the hub as events, and the steps that keep it
--               safe (Safety, Arrivals, Departures, Streams)
--   Tests       the theorems at concrete inputs, on a small fleet
--
-- How the model corresponds to the code:
--   * A function keeps the name of the Go function in snake case. Where a store operation and a
--     handler have the same name, the handler ends in _handler.
--   * A Go map is a list of pairs in the order of first insertion, with at most one entry per key;
--     the order in which `range` visits a map is arbitrary in Go and this order in the model.
--   * An `int` is a signed integer, and its 64-bit wrap-around is written out where the code
--     counts, scales or subtracts. Times are nanoseconds since the year 1; UUIDs are numbers, and
--     uuid.Nil is 0. A float64 is its bit pattern, which no modelled code computes with.
--   * JSON decoding is outside: a handler gets the decoded value and whether decoding failed.
--   * What a handler draws from outside (the clock, new UUIDs, random bytes) and the pure functions
--     of packages (uuid.Parse, hex, sha256, strconv.Atoi) are fields of Http.Env and Http.Library;
--     a draw is numbered by its place in the handler. Argon2id, JWT, HMAC, base32 and the string
--     functions that services/api/internal/auth calls are fields of Auth.Crypto.
--   * A table of the database is a map by its primary key, or a list of rows where nothing refers to
--     one. A method of PostgresStore is a function of the tables and of a Query, which says which of
--     its statements fail, what NOW() and the clock give, and how a value comes back from its column.
--     An INSERT fails on a constraint of the schema, a DELETE of a group goes on to the groups below.
--   * A mutex makes each store operation one atomic step, so a handler runs alone except in
--     Handlers/Enrollment/Interleaving, where the two store calls of a handshake are separate steps.
--
-- The rounds of a cascading DELETE are counted by the number of rows of the table, and each round
-- but the last finds a row, so this is enough (Postgres/Groups/Cascade). All other recursion is over
-- lists and needs no fuel.
--
-- Not modelled: connections to the database and rows.Err(), which the code does not look at; the
-- listeners of the two servers, the matching of net/http's mux and response headers; the writing of
-- server-sent events and the ticker of the watchdog; the Windows agent, the admin console and the
-- database scripts beyond the tables. The handlers are modelled
-- over the in-memory store; Fleet shows where the two stores agree.
pub mod Base
pub mod Models
pub mod Store
pub mod Http
pub mod Postgres
pub mod Auth
pub mod Middleware
pub mod Hub
pub mod Realtime
pub mod Handlers
pub mod Fleet
pub mod Server
pub mod Tests
