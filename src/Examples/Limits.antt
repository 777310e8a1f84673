-- ===== src/Examples/Limits.antt =====
-- Runs of the token bucket, and its theorems at concrete inputs.
use go_api_management.Base.{
  ◌≡◌, refl, arith, codes, [], ◌∷◌, ◌++◌, none, some, Bytes, ℕ, ◌%◌, ◌↔◌, ◌+◌, inr,
}
use go_api_management.Errors.{ok}
use go_api_management.Http.{Request}
use go_api_management.RateLimiter.{RateLimiterConfig, Bucket}
use go_api_management.RateLimiter.Middleware.{get_client_identifier, bucket_key, identify}
use go_api_management.RateLimiter.Middleware.Identity.{user_bucket_iff, identifier_forwarded}
use go_api_management.Strings.{trim_space}

-- five tokens, one a second
abbrev five : RateLimiterConfig
five = record { capacity = 5; refill_rate = 1; refill_period = 1000 }

abbrev spent : Bucket
spent = record { tokens = 0; last_update = 2000 }

-- one token, one a second
abbrev pub single : RateLimiterConfig
single = record { capacity = 1; refill_rate = 1; refill_period = 1000 }

abbrev pub request : Request
request = record {
  method = codes "GET";
  path = codes "/";
  query = λ k. [];
  header = λ k. codes "10.0.0.7";
  cookie = λ k. none;
  remote_addr = codes "192.0.2.1:1234";
  body = none;
  claims = ok none;
  request_id = none;
}

abbrev pub signed_in : Request
signed_in = record request { claims = ok (some (codes "alice")) }

-- a digest of one byte: the sum of the bytes
abbrev sum : Bytes → ℕ
sum [] = 0
sum (x ∷ s) = x + sum s

abbrev short_digest : Bytes → Bytes
short_digest s = (sum s % 256) ∷ []

abbrev on_the_road : Request
on_the_road = record signed_in { remote_addr = codes "198.51.100.9:99" }

same_user : get_client_identifier on_the_road ≡ get_client_identifier signed_in
unfolding get_client_identifier identify
same_user = refl

user_bucket_iff_example :
    (bucket_key short_digest on_the_road ≡ bucket_key short_digest signed_in)
    ↔ (on_the_road.claims ≡ ok (some (codes "alice")))
user_bucket_iff_example =
    user_bucket_iff short_digest signed_in on_the_road (codes "alice") (λ s. omega arith)
      (λ _. same_user) (cc) refl

abbrev proxied : Request
proxied = record request { header = λ k. codes " 10.0.0.7, 192.0.2.1"; claims = ok (some []) }

identifier_forwarded_example :
    get_client_identifier proxied ≡ codes "ip:" ++ trim_space (codes " 10.0.0.7")
identifier_forwarded_example =
    identifier_forwarded proxied (codes " 10.0.0.7") (λ s e. cc e) (cc)
      (omega arith, inr (codes " 192.0.2.1", refl))
