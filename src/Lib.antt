-- ===== src/Lib.antt =====
-- pixiv-relay, the server that relays, caches, syncs and recovers for a Pixiv client (Go, under
-- internal/ and cmd/).
--
-- Parts, and how they interact. internal/app builds the parts from internal/config and routes
-- requests to them, behind a request id, an access log and the headers for other origins of
-- internal/web, which also serves the files of the web client. internal/db brings the schema up to
-- date before that. A handler takes a token from a rate limit, checks the client's bearer token, or
-- the operator's, decodes the body, and calls a service. internal/auth gives out tokens and tells who
-- bears one. internal/sync merges what devices push into the tables sync_entries and sync_domains and
-- pages rows out to them; it numbers rows by the cursor of their domain, which a token carries.
-- internal/relay sends a request to an allowed host. internal/img answers with an image from
-- internal/cache, or fetches it and stores it there; the cache keeps files on disk with a row per
-- file in cache_meta, counts their bytes, and evicts when the count passes a watermark.
-- internal/recover looks for lost images in a queue of goroutines, with the help of the snapshots
-- that clients pushed to internal/sync, and stores what it finds in the cache. internal/crypto
-- encrypts the rows of sync and recover. internal/admin removes accounts from all their tables,
-- reports on the tables and the cache, and changes the settings that the cache, the rate limits,
-- auth and recover run by.
--
-- Files. A table is a list of rows (Prelude.Table), a text the list of its code points, a body, a
-- file or a ciphertext the list of its bytes, an int64 a ℤ whose sums wrap (Prelude.Int). An operation takes the state and what its calls of the outside return,
-- and gives the new state and its result.
--   Prelude    comparisons, lists, texts, integers, decimal numbers, tables, sorting by a key
--   Common     internal/common: errors.go and the codes of response.go (Common.Errors), ratelimit.go
--              (Common.Limits), pagination.go and validate.go (Common.Paging), logger.go
--              (Common.Redact), requests, answers and the handlers around handlers: response.go,
--              requestid.go, middleware.go, DecodeJSON and the Middleware of ratelimit.go
--              (Common.Http)
--   Crypto     internal/crypto/crypto.go (Crypto.Aead), and the interface that the stores use
--   Auth       internal/auth: service.go, tokens.go and the lookup of middleware.go (Auth.Store)
--   Sync       internal/sync: domains.go (Sync.Json, valid_domain in Sync.Store), token.go
--              (Sync.Token), the tables and checks of service.go (Sync.Store), Push (Sync.Push) and
--              Pull (Sync.Pull), restarts (Sync.Token.Load, Sync.Restart)
--   Cache      internal/cache/disklru.go: Get, the writer, Commit and Put (Cache.Store), evict
--              (Cache.Evict), Open (Cache.Open), operations in any order (Cache.Life, Cache.Memory),
--              two that overlap (Cache.Races)
--   Img        internal/img/service.go up to the answer (Img.Service)
--   Relay      internal/relay/service.go (Relay.Service)
--   Recover    internal/recover: the sources (Recover.Sources) and their choice, NewService and its
--              TTLs (Recover.Build), queue.go and lookup (Recover.Queue), Query (Recover.Query), the
--              goroutines as steps (Recover.Workers), a whole search (Recover.Work); which searches
--              a state has is described in Recover.Single, which rows they hold in Recover.Wait
--   Admin      internal/admin: accounts and devices of service.go (Admin.Accounts), its reports and
--              EvictCache (Admin.Reports), settings.go (Admin.Texts, Admin.Settings)
--   Web        internal/web: cors.go (Web.Cors), spa.go (Web.Spa)
--   App        internal/app/app.go and the routes.go of each package: the state of the whole server
--              (App.State), the JSON of the answers (App.Payloads), handlers without a token
--              (App.Public), for clients (App.Member) and for the operator (App.Operator for the
--              token and the settings, App.Desk), the routes and the chain (App.Mux), the start
--              (App.Start); what id and origin an answer should name is described in App.Expected
--   Config     internal/config/config.go
--   Migrate    internal/db/migrate.go
--   The other modules of a part hold its proofs. Its Examples apply the theorems to small states, those of
--   Prelude are tests.
--
-- Correspondence. Go names are written with underscores: validateItems is validate_items, Next is
-- next, pathFor is path_for; Do of the relay is do_request, Refresh is refresh_tokens. An `if err !=
-- nil { return }` is a line of a do block; a SQL statement or a system call that can fail is a
-- constructor of a type Statement or a field of a record of faults, and which of them fail is
-- arbitrary. A transaction is a result that settle writes back or drops. A goroutine is a job in the
-- state; its steps and those of requests come in any order (Recover.Workers.Step).
-- A handler is a function of the request, the headers set so far and the state (App.State.State, or
-- the part that the middleware's caller holds); a middleware takes the next handler. Headers have the
-- spelling that net/http gives them. The query, the path's parts and the client's address of a
-- request are fields of it. The fields of an answer's JSON are a list; an answer can also be a text,
-- the abort of a handler that panics, or the wait of one that has not answered yet. A pattern of
-- http.ServeMux is a method and the parts of a path, and the first that matches is taken: those that
-- match one path differ in their methods, but for `GET /`, which comes last.
--
-- Arguments that stand for code of others: SHA-256, base64, the AEAD, net/url, the JSON decoder,
-- floating point, the bucket of golang.org/x/time/rate, the clock, randomness, the network, Getenv,
-- filepath.Join, path.Clean, the parsers of package net, the host's MIME types, and the file system
-- that the web client's files come from.
--
-- Fuel. Cache.Evict.evict counts its rounds; one more than there are rows is enough where no call
-- fails. Cache.Open.open_cache and App.Start.start are given the rounds of the first eviction, and
-- the start makes no server where they do not suffice. Sync.Pull.Complete.pull_all counts pages;
-- one more than there are rows behind the cursor is enough. The loop of a mirror makes 49 rounds at
-- most, as in the code, and needs no fuel beside that.
--
-- Not modelled: cmd/server, which listens and waits for signals; Open of internal/db, which sets
-- pragmas; the embedded files and the choice of a directory for the web client (an argument of the
-- start); ranges and dates of http.ServeContent, and what net/http adds to its own 301 and 405; a
-- directory named index.html, which counts as no file; the text of JSON, and that its numbers are
-- floats where WriteJSON adds the id; the errors of Scan that Overview skips; locks (each operation
-- that holds one is a single step); how calls of the cache's Get and Commit overlap, which hold none
-- and are single steps all the same, but for the two Gets of Cache.Races; the redirects that the
-- relay's HTTP client follows, to any host; the case of letters beyond ASCII, but for the signs that
-- fold to ASCII letters; the limits on how many searches and requests to one source run
-- at once, and other waits.
pub mod Prelude
pub mod Common
pub mod Crypto
pub mod Auth
pub mod Sync
pub mod Cache
pub mod Relay
pub mod Recover
pub mod Admin
pub mod App
pub mod Config
pub mod Img
pub mod Migrate
pub mod Web
