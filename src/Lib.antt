-- ===== src/Lib.antt =====
-- An API gateway for sign-in by OIDC with PKCE, and a banking engine behind it that executes
-- transfers signed by a device (README.md, internal/).
--
-- The gateway's edge limits requests by a token bucket in Valkey, signs users in over a session
-- table and an identity provider, and forwards transfers to the intranet with an internal token; the
-- intranet takes the token, and executes a transfer that a registered key of the user has signed.
--
-- The files, and the code that they follow, by paths from the repository's root:
--   Base, Strings, Encoding   numbers, lists, bytes; what the code uses of `strings`,
--                             `encoding/base64`, `encoding/hex` and `strconv`
--   Errors                    internal/core/domain/errors.go, and errors as values
--   Masking                   String of MaskedEmail and MaskedName (internal/core/domain/user.go) and
--                             of MaskedAccount (internal/banking/domain/banking.go)
--   Http                      the parts of requests and responses that the middleware touch
--   RateLimiter               internal/adapters/handler/rate_limiter.go: the Lua script (token_bucket),
--                             EvalTokenBucket (Command, Backend), the middleware (Middleware), and
--                             runs of all three over Valkey and a clock (Window)
--   Auth                      internal/core/domain/session.go, token.go and user.go
--   Auth.Pkce                 internal/adapters/crypto/pkce.go, and generateUUIDv4
--   Auth.Sessions             internal/adapters/repository/sql_session_repository.go: Save, Get, Delete
--                             and DeleteExpired are save, get, delete and delete_expired
--   Auth.Service              internal/core/services/auth_service.go: InitiateAuth, HandleCallback,
--                             RefreshToken and RevokeToken are initiate_auth, handle_callback, refresh
--                             and revoke; Auth.Service.Interleaved cuts HandleCallback at its calls, for
--                             callbacks that run at the same time, and Auth.Service.Provenance has the
--                             runs of logins, callbacks, refreshes, revocations and sweeps
--   Auth.Gateway              internal/adapters/gateway/auth0_gateway.go; the methods keep their names, but
--                             for RefreshToken, which is refresh_tokens
--   Auth.Handler              internal/adapters/handler/auth_handler.go; Auth.Handler.Journey follows a
--                             browser from Login to Callback
--   Correlation               internal/adapters/handler/middleware.go: CorrelationMiddleware, the log
--                             handler (handle_record) and JWTMiddleware (jwt_middleware)
--   Telemetry                 internal/adapters/telemetry/prometheus_metrics.go: the collectors, init
--                             (register_collectors) and MetricsMiddleware (metrics); Telemetry.Tracer
--                             is InitTracer of otel_tracer.go
--   Schema                    internal/adapters/handler/schema_middleware.go
--   Policy                    internal/adapters/handler/policy_middleware.go: the handler is
--                             policy_check; Policy.Reload is the evaluator and its watcher, and
--                             Policy.Reload.Watch the watcher's loop on fuel; Policy.Rules is
--                             policies/policy.rego
--   Banking                   internal/banking/domain/banking.go
--   Banking.Jwt               internal/banking/adapters/crypto/jwt.go
--   Banking.Signature         internal/banking/adapters/crypto/signature.go
--   Banking.Attestation       internal/banking/adapters/gateway/attestation_verifier.go
--   Banking.KeyRepository     internal/banking/repository/sql_key_repository.go; its child Origin has the
--                             runs of registrations, deletions and executions
--   Banking.Service           internal/banking/services/banking_service.go: RegisterDeviceKey,
--                             InitiateTransfer and ExecuteIntranetTransfer
--   Banking.Handler           internal/banking/handler/banking_handler.go; Banking.Handler.Edge and
--                             Banking.Handler.Intranet put the routes of the two sides together, and
--                             Banking.Handler.Journey follows a transfer from one to the other
--   Examples                  the theorems at concrete inputs, and runs of the code
--
-- State: a call that changes something outside the program is a function from a world to a result and
-- the next world, so that the order of calls is the order of the code. The worlds, and the calls of
-- libraries and services on them, are records that the definitions take: the session table, the
-- identity provider, random bytes, clocks, Valkey, Prometheus, OpenTelemetry, gobreaker, HTTP, chi's
-- answer to other routes, the JWT middleware, OPA, fsnotify, JSON, PEM, X.509, ECDSA, HMAC and
-- SHA-256. What a theorem needs of them is a record of laws, and an example gives values that meet it.
-- Strings are lists of bytes. Errors keep the chain of `%w`; log lines and contexts are left out.
--
-- Numbers: times are natural numbers of nanoseconds (of milliseconds in the script), and signed
-- numbers are exact. Where the token bucket's script counts in doubles, tokens are counted here exactly,
-- in units of 1/refill_period: the remaining thousandths of a reply, and a decision within a rounding
-- of a whole token, can differ from the script's. Only the watcher's loop, which may run for ever, takes fuel, one unit for each event
-- that it receives; each other loop goes down a list, and decimal digits go down the number printed.
--
-- Concurrency: the server runs handlers at the same time. For callbacks, a run is a sequence of moves,
-- each of one callback up to its next call, with arrivals and with moves of the rest of the program
-- between them; the token bucket's script is atomic, and its runs are sequences of calls between which
-- Valkey may drop a hash whose time is over. The runs of Window, Provenance and Origin take whole
-- requests one behind the other.
--
-- Not modelled: constructors that only fill a struct, log lines, and the scripts and documents beside
-- the code.
mod Base
pub mod Strings
pub mod Masking
pub mod RateLimiter
pub mod Errors
pub mod Http
pub mod Telemetry
pub mod Schema
pub mod Policy
pub mod Encoding
pub mod Banking
pub mod Auth
pub mod Correlation
mod Examples
