-- ===== src/Lib.antt =====
-- Modex Cloud: suppliers upload API keys for downstream platforms; the server seals each key, sends
-- it to its platform in the background, and erases it once the platform has taken it.
--
-- The parts, from the bottom up, and the code that they are about:
--   Prelude      Boolean tests, equality as an interface, lists over native numbers, integers.
--   Text         Go strings as bytes, and the functions of packages strings, strconv and
--                encoding/hex that the code calls.
--   Json         common/json.go: whitelists as JSON text, over encoding/json as a parameter.
--   Wire         JSON values, requests to a platform and its replies.
--   Constant     constant/channel.go and constant/role.go.
--   Model        package model. Schema holds the rows (the structs of model/*.go field by field),
--                World the state and the statements that operations are made of, and Channel,
--                Platform, Grant, User and Audit one function for each exported operation, under the
--                Go names in snake case. Invariant says which states are valid.
--   Crypto       crypto/vault.go: sealing, opening and fingerprints. Global is crypto/global.go, the
--                face of the vault that the handlers have and the one that the worker has.
--   Agt          service/agt/client.go: the requests to a platform.
--   Sync         service/sync/worker.go: sync_channel and refresh_usage, split where the Go function
--                goes on with what it has loaded.
--   Validate     service/validate/validate.go: channel_upload and its helpers.
--   Middleware   Auth is middleware/auth.go, Limiter the rate limiter and Headers the headers
--                of middleware/security.go.
--   Controller   Flow holds what handlers are made of and the response envelope of
--                common/response.go; Paging the query parameters. SupplierChannel is
--                controller/supplier_channel.go: Steps has the requests and what the handlers share,
--                Views what a supplier is shown, and the handlers are in the file itself; Runs is the
--                server over time. Account is controller/auth.go, SupplierPlatform
--                controller/supplier_platform.go, and Admin has one module for each of
--                controller/admin_*.go.
--   Router       router/router.go: the routes as a data type, each with its guard, and sequences of
--                requests. Setup is what stands round the routes, and Spa is router/spa.go,
--                which answers the paths that no route takes. Guards and Logins say what does not
--                get through, Invariant what requests keep, and Blind what they do not depend on.
--   Config       config/config.go, and DotEnv config/dotenv.go.
--   Boot         the start in main.go: Dsn is the choice of the database and Init its opening in
--                model/main.go, Seed the random secrets of common/crypto.go and SeedRootUser of
--                model/user.go, and Serve what is served, with distFS of embed.go.
--   Examples     the concrete server that the modules named Tests run on.
--
-- How they interact: a handler reads the request's context, calls operations of Model, Validate and
-- Crypto, and puts the channel's id in the list of jobs where the code starts a goroutine. A job is
-- a run of Sync, which opens the key and the platform's token with Crypto and sends them with Agt. In
-- Controller.SupplierChannel.Runs requests and jobs follow one another in any order, each as one
-- step; Sync.Rotation looks at two of their statements interleaved. A request to the router passes its
-- guard, which makes the context that the handler reads from the session or the access token; the login
-- passes the limiter instead.
--
-- State is the record World: five tables, the clock, the streams of what the outside answers (which
-- database statements fail, random bytes, replies of platforms), the log of requests sent, and the
-- jobs. An operation is a function from a World to a result and a World. A statement of gorm is its
-- where-clause as a test on rows and its map of updates as a function on rows; one that fails changes
-- no row. Rows that are soft-deleted are skipped except where the code says Unscoped. Unique indices
-- refuse an insert.
--
-- Numbers: ids, types and statuses are integers without bounds, as they come from counters and
-- constants far below 2^63; counts and times are natural numbers. Atoi rejects what does not fit 64
-- bits, and the arithmetic on page numbers wraps around at 64 bits.
--
-- Loops: the search for a free name makes 1000 rounds, as in the code. Trimming a text needs at most
-- as many rounds as the text has bytes, since each removes one; writing a number in decimal at most
-- one more than the number, since each divides it by ten. The other loops follow a list.
--
-- Parameters: AES-GCM, SHA-256, HMAC, bcrypt, encoding/json, url.Parse, the quoting of %q, the store
-- that signs the cookies, and opening and migrating the database. The hypothesis on AES-GCM is that
-- it opens what it has sealed; that on encoding/json, that it reads back the slices it has written;
-- that on bcrypt, that it verifies what it has hashed. The vault of the handlers is the one that the
-- start has installed.
--
-- Not modelled: the matching of paths to routes, cookies on the wire and the binding of bodies,
-- which are Gin's (a body that cannot be bound is `none`); the redirects that net/http follows
-- when it sends a request to a platform; the bytes of static files; how GORM opens and migrates
-- the database, and the opening of the `.env` file, whose results are arguments; SetGlobal,
-- InitForTest and ApiSuccessMsg, which only the tests or nothing calls, and CurrentRole, which
-- nothing calls; the erasing of memory and comparison in constant time, which a pure function
-- cannot show; the interleaving of the statements of two requests, except in Sync.Rotation.
pub mod Prelude
pub mod Text
pub mod Json
pub mod Wire
pub mod Constant
pub mod Model
pub mod Crypto
pub mod Agt
pub mod Sync
pub mod Validate
pub mod Controller
pub mod Middleware
pub mod Router
pub mod Config
pub mod Boot
pub mod Examples
