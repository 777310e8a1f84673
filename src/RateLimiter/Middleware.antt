-- ===== src/RateLimiter/Middleware.antt =====
-- RateLimiterMiddleware of internal/adapters/handler/rate_limiter.go.
pub mod Identity
use go_api_management.Encoding.Hex
use go_api_management.Base.{
  ℕ, zero, suc, ◌+◌, ◌-◌, ◌/◌, Bool, true, false, Option, none, some, List, [], ◌∷◌, ◌++◌, Bytes,
  codes, is_empty, ◌==◌, if◌then◌else◌, take, drop, length, ℤ, String, refl, inl, inr, ◌≡◌, ◌≢◌,
  ◌∙◌, arith, ◌||◌, ◌&&◌,
}
use go_api_management.Strings.{split, trim_space, index_byte, last_index_byte}
use go_api_management.Errors.{Result, ok, err}
use go_api_management.Http.{
  Request, Writer, Handler, Value, lit, number, integer, set_header, write_header, encode,
  json_type,
}
use go_api_management.RateLimiter.{RateLimiterConfig}

-- a byte at a position; 0 behind the end
abbrev byte_at : ℕ → Bytes → ℕ
byte_at i [] = 0
byte_at zero (c ∷ s) = c
byte_at (suc i) (c ∷ s) = byte_at i s

abbrev found : Option ℕ → Bool
found none = false
found (some i) = true

-- the host, if no stray bracket stands behind the two positions
host_unless_bracket : Bytes → ℕ → ℕ → Bytes → Option Bytes
host_unless_bracket s j k host =
    if found (index_byte b'[' (drop j s))
    then none
    else if found (index_byte b']' (drop k s))
    then none
    else some host

-- `net.SplitHostPort(s)`: the host, or `none` for an error; `i` is the place of the last colon.
split_host_at : Bytes → ℕ → Option Bytes
unfolding host_unless_bracket
split_host_at s i =
    if byte_at 0 s == b'['
    then (elim (index_byte b']' s) [
      | none ↦ none
      | some end ↦
          if end + 1 == length s
          then none
          else if end + 1 == i
          then host_unless_bracket s 1 (end + 1) (drop 1 (take end s))
          else none
    ])
    else if found (index_byte b':' (take i s))
    then none
    else host_unless_bracket s 0 0 (take i s)

unfoldable pub split_host : Bytes → Option Bytes
unfolding split_host_at
split_host s = elim (last_index_byte b':' s) [ none ↦ none | some i ↦ split_host_at s i ]

abbrev first_of_parts : List Bytes → Bytes → Bytes
first_of_parts [] ip = ip
first_of_parts (p ∷ ps) ip = trim_space p

-- `X-Forwarded-For` goes before the address of the connection.
client_ip : Request → Bytes
client_ip r =
    let ip : Bytes = elim (split_host r.remote_addr) [ none ↦ r.remote_addr | some host ↦ host ] in
    let xff = r.header "X-Forwarded-For" in
    if is_empty xff then ip else first_of_parts (split b',' xff) ip

-- The subject of the claims goes before the address.
unfoldable pub identify : Result (Option Bytes) → Bytes → Bytes
identify (err e) ip = codes "ip:" ++ ip
identify (ok none) ip = codes "ip:" ++ ip
identify (ok (some [])) ip = codes "ip:" ++ ip
identify (ok (some (c ∷ subject))) ip = codes "user:" ++ c ∷ subject

-- `getClientIdentifier`
unfoldable pub get_client_identifier : Request → Bytes
unfolding client_ip identify
get_client_identifier r = identify r.claims (client_ip r)

-- hashIdentifier, over SHA-256
hash_identifier : (Bytes → Bytes) → Bytes → Bytes
hash_identifier sha256 id = Hex.encode (sha256 id)

-- the key of a request's bucket
unfoldable pub bucket_key : (Bytes → Bytes) → Request → Bytes
unfolding hash_identifier
bucket_key sha256 r = codes "ratelimit:" ++ hash_identifier sha256 (get_client_identifier r)

-- SHA-256 is a parameter, and so are the backend, a call of which may change the world, and the clock.
module _ {ℓ} {W : Type ℓ} (sha256 : Bytes → Bytes)
    (eval_token_bucket : Bytes → RateLimiterConfig → ℕ → W → Result (Bool × ℤ) × W) (now : W → ℕ)
    (c : RateLimiterConfig) where
  telemetry : ℤ → Writer → Writer
  telemetry remaining w =
      set_header "X-RateLimit-Remaining" (integer remaining)
        (set_header "X-RateLimit-Limit" (number c.capacity) w)

  -- the answer to a refused request; `Retry-After` is in whole seconds
  too_many : ℤ → Writer → Writer
  unfolding telemetry
  too_many remaining w =
      encode
        (("error", lit "too many requests")
          ∷ ("message", lit "rate limit exceeded, please retry later")
          ∷ [])
        (write_header 429 (
          json_type
            (set_header "Retry-After" (number (c.refill_period / 1000)) (telemetry remaining w))))

  -- the part of the handler behind the backend's answer
  unfoldable pub decide : Handler W → Request → Writer → Result (Bool × ℤ) × W → W × Writer
  unfolding too_many telemetry
  decide next r w (err e, s) = next r (s, w)
  decide next r w (ok (true, remaining), s) = next r (s, telemetry remaining w)
  decide next r w (ok (false, remaining), s) = (s, too_many remaining w)

  -- `Handler`
  unfoldable pub rate_limit : Handler W → Handler W
  unfolding decide
  rate_limit next r (s, w) = decide next r w (eval_token_bucket (bucket_key sha256 r) c (now s) s)
