-- ===== src/Examples/Requests.antt =====
-- Identifiers at concrete inputs.
use go_api_management.Auth.Pkce.{Filled, generate_uuid_v4}
use go_api_management.Auth.Pkce.Uuid.{IsUuidV4, uuid-IsUuidV4}
use go_api_management.Correlation.Identifier.{correlated_logs}
use go_api_management.Errors.{ok}
use go_api_management.Http.{Request, Handler, fresh, set_header, bytes}
use go_api_management.Correlation.{LogRecord, LogHandler, correlation, handle_record}
use go_api_management.Base.{
  ℕ, [], some, none, ◌≡◌, ◌≢◌, Bytes, codes, length, refl, arith, replicate,
}

abbrev request : Request
request = record {
  method = codes "GET";
  path = codes "/";
  query = λ k. [];
  header = λ k. codes "r-17";
  cookie = λ k. none;
  remote_addr = codes "192.0.2.1:1234";
  body = none;
  claims = ok none;
  request_id = none;
}

abbrev quiet : Handler ℕ
quiet r sw = sw

-- It counts the attributes.
abbrev counting : LogHandler ℕ
counting r line n = (ok tt, length line.attributes)

abbrev line : LogRecord
line = record { text = codes "started"; attributes = [] }

correlated_logs_example :
    (id : Bytes) × (s' : ℕ) × (id ≢ [])
    × (correlation (λ s. (record { buffer = []; failure = none }, s)) quiet request (0, fresh)
        ≡ (s', set_header "X-Request-ID" (bytes id) fresh))
    × (codes "r-17" ≢ [] → id ≡ codes "r-17")
    × (handle_record counting (record request { request_id = some id }) line 0 ≡ (ok tt, 1))
correlated_logs_example =
    correlated_logs (λ s. (record { buffer = []; failure = none }, s)) quiet request 0 fresh
      counting line 0

abbrev sixteen_zeros : Filled
sixteen_zeros = record { buffer = replicate 16 0; failure = none }

uuid-IsUuidV4_example : IsUuidV4 (generate_uuid_v4 sixteen_zeros)
uuid-IsUuidV4_example = uuid-IsUuidV4 sixteen_zeros refl (omega arith)
