-- ===== src/Telemetry.antt =====
-- internal/adapters/telemetry/prometheus_metrics.go: the collectors, their registration, and
-- MetricsMiddleware. The Prometheus client is a parameter, and so are the texts of statuses.
pub mod Tracer
pub mod Counts
use go_api_management.Auth.{Action}
use go_api_management.Strings.{has_prefix}
use go_api_management.Http.{Writer, Handler, Request}
use go_api_management.Errors.{Result, ok, err, ◌>>=◌}
use go_api_management.Base.{
  Bytes, if◌then◌else◌, ℕ, codes, none, some, refl, [], ◌∷◌, true, false, inl, inr, ◌≡◌, ◌≢◌, ◌∙◌,
  ◌++◌, arith, ◌||◌, ◌&&◌, zero, suc, ◌-◌, String, List,
}

-- The bounds of a histogram's buckets are in milliseconds.
pub data Kind : Type 0 where
  histogram : List ℕ → Kind
  counter gauge : Kind

-- the options of a collector and the names of its labels
pub record Collector : Type 0 where
  pub name : String
  pub help : String
  pub kind : Kind
  pub labels : List String

-- HTTPRequestDuration
abbrev pub http_request_duration : Collector
http_request_duration = record {
  name = "http_request_duration_seconds";
  help = "Histogram of response latencies for HTTP requests.";
  kind = histogram (1 ∷ 2 ∷ 5 ∷ 10 ∷ 20 ∷ 50 ∷ 100 ∷ 200 ∷ 500 ∷ 1000 ∷ 2000 ∷ 5000 ∷ []);
  labels = "method" ∷ "path" ∷ "status" ∷ [];
}

-- HTTPRequestsTotal
abbrev pub http_requests_total : Collector
http_requests_total = record {
  name = "http_requests_total";
  help = "Total count of processed HTTP requests.";
  kind = counter;
  labels = "method" ∷ "path" ∷ "status" ∷ [];
}

-- CircuitBreakerState
abbrev pub circuit_breaker_state : Collector
circuit_breaker_state = record {
  name = "circuit_breaker_state";
  help = "Current state of circuit breakers (0 = Closed, 1 = HalfOpen, 2 = Open).";
  kind = gauge;
  labels = "name" ∷ [];
}

-- JWKSCacheHits
abbrev pub jwks_cache_hits : Collector
jwks_cache_hits = record {
  name = "jwks_cache_hits_total";
  help = "Total number of JWKS caching hits.";
  kind = counter;
  labels = [];
}

-- What is used of the client, with durations in nanoseconds: a registration, an observation and an
-- increment under the values of the labels, the clock, and the text of a status.
pub record MetricsLibrary (W : Type 0) : Type 0 where
  pub register : Collector → Action W (Result (Unit {0}))
  pub observe : Collector → List Bytes → ℕ → W → W
  pub inc : Collector → List Bytes → W → W
  pub now : W → ℕ
  pub status_text : ℕ → Bytes

-- the registrations in turn; an error is the panic of MustRegister
pub must_register : {W : Type 0} → MetricsLibrary W → List Collector → Action W (Result (Unit {0}))
must_register lib [] w = (ok tt, w)
must_register lib (c ∷ cs) w =
    let (r, w') = lib.register c w in
    elim r [ err e ↦ (err e, w') | ok done ↦ must_register lib cs w' ]

-- init
pub register_collectors : {W : Type 0} → MetricsLibrary W → Action W (Result (Unit {0}))
unfolding must_register
register_collectors lib =
    must_register lib
      (http_request_duration ∷ http_requests_total ∷ circuit_breaker_state ∷ jwks_cache_hits ∷ [])

abbrev transfers_prefix : Bytes
transfers_prefix = codes "/private/transfers/"

-- the label of a path
unfoldable pub path_label : Bytes → Bytes
path_label path = if has_prefix path transfers_prefix then codes "/private/transfers/:id" else path

-- The status that a statusWriter holds: 200 until WriteHeader is called. It would hold the last of several
-- statuses, where a response keeps the first; the handlers write one at most.
abbrev pub status_of : Writer → ℕ
status_of w = elim w.status [ none ↦ 200 | some code ↦ code ]

module _ {W : Type 0} (lib : MetricsLibrary W) where
  -- the values of the labels of a request, by its response
  unfoldable pub labels_of : Request → Writer → List Bytes
  labels_of r w = r.method ∷ path_label r.path ∷ lib.status_text (status_of w) ∷ []

  -- MetricsMiddleware
  unfoldable pub metrics : Handler W → Handler W
  unfolding labels_of
  metrics next r (s, w) =
      let start = lib.now s in
      let (s', w') = next r (s, w) in
      let duration = lib.now s' - start in
      let labels = labels_of r w' in
      (
        lib.inc http_requests_total labels (lib.observe http_request_duration labels duration s'),
        w',
      )
