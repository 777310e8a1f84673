-- ===== src/Examples/Windows.antt =====
-- A run of the limited service over a small Valkey, and the bound on one of its buckets.
use go_api_management.RateLimiter.Window.{serves, stops, elapses}
use go_api_management.RateLimiter.Window.Bound.{window_budget}
use go_api_management.RateLimiter.Refill.{expired}
use go_api_management.Examples.Limits.{signed_in, single}
use go_api_management.Encoding.Decimal.{value, digits, format}
use go_api_management.RateLimiter.{bad_ttl, settle, current, refilled}
use go_api_management.RateLimiter.Middleware.{
  get_client_identifier, rate_limit, bucket_key, decide, identify,
}
use go_api_management.Errors.{foreign}
use go_api_management.Http.{Handler, fresh}
use go_api_management.RateLimiter.Backend.{
  Speaks, Response, not_array, array, failed, int, eval_result,
}
use go_api_management.RateLimiter.Command.{Command, eval_token_bucket, eval_command}
use go_api_management.Base.{
  ℕ, refl, [], ◌∷◌, some, none, inl, inr, ◌≡◌, ◌≢◌, arith, Bytes, if◌then◌else◌, Option, ◌==◌, ◌+◌,
  str_eq_refl, Bool-cases, str_eq, sym, str_eq_iff, pos, ◌-◌, ◌*◌, ◌≤◌,
}
use go_api_management.RateLimiter.Window.{
  fails, answers, WindowLaws, Comes, failure_at, limited, Runs, Elapses,
}
use go_api_management.RateLimiter.{Bucket, Reply, Outcome, token_bucket, granted, refused}

-- The hashes, the clock in milliseconds, and what is counted. At the time 7 the server is down.
record World : Type 0 where
  store : Bytes → Option Bucket
  clock : ℕ
  served : ℕ
  failed_calls : ℕ

abbrev alice : Bytes
alice = bucket_key (λ id. id) signed_in

abbrev spoken : Reply → Response
spoken (granted n) = array (int (pos 1) ∷ int (pos n) ∷ [])
spoken (refused n) = array (int (pos 0) ∷ int (pos n) ∷ [])
spoken bad_ttl = failed (foreign 1)

abbrev put_hash : Bytes → Option Bucket → (Bytes → Option Bucket) → Bytes → Option Bucket
put_hash key value m k = if str_eq k key then value else m k

abbrev script : Bytes → Bytes → Bytes → Bytes → Bytes → World → Outcome
script key a b p t w =
    token_bucket record { capacity = value 0 a; refill_rate = value 0 b; refill_period = value 0 p }
      (value 0 t) (w.store key)

abbrev eval_script : Command → World → Response × World
eval_script k w = elim k.arguments [
  | [] ↦ (not_array (foreign 2), w)
  | a ∷ r1 ↦ elim r1 [
    | [] ↦ (not_array (foreign 2), w)
    | b ∷ r2 ↦ elim r2 [
      | [] ↦ (not_array (foreign 2), w)
      | p ∷ r3 ↦ elim r3 [
        | [] ↦ (not_array (foreign 2), w)
        | t ∷ r4 ↦ (
          spoken (script k.key a b p t w).reply,
          record w { store = put_hash k.key (script k.key a b p t w).stored w.store },
        )
      ]
    ]
  ]
]

abbrev answered : Command → World → Response × World
answered k w = if w.clock == 7 then (failed (foreign 3), w) else eval_script k w

abbrev send : Command → World → Response × World
send k w =
    let (response, w') = answered k w in
    (
      response,
      record w' {
        clock = w.clock + 1;
        served = w.served;
        failed_calls = failure_at alice k.key response + w.failed_calls;
      },
    )

abbrev handled : Handler World
handled r (w, out) = (
  record w {
    served = (if str_eq (bucket_key (λ id. id) r) alice then 1 else 0) + w.served;
    clock = w.clock + 2;
  },
  out,
)

put_hash_lem :
    (key : Bytes) (v : Option Bucket) (m : Bytes → Option Bucket) → put_hash key v m key ≡ v
put_hash_lem key v m = rw (str_eq_refl key) refl

put_hash_other :
    (key k : Bytes) (v : Option Bucket) (m : Bytes → Option Bucket)
    → key ≢ k
    → put_hash key v m k ≡ m k
put_hash_other key k v m h = elim (Bool-cases (str_eq k key)) [
  | inl same ↦ absurd (h (sym ((str_eq_iff k key).0 same)))
  | inr other ↦ rw other refl
]

spoken-Speaks : Speaks spoken
spoken-Speaks = record {
  on_granted = λ n. refl;
  on_refused = λ n. refl;
  ttl_error = foreign 1;
  on_bad_ttl = refl;
}

comes :
    (key a b p t : Bytes) (w : World)
    → Comes send
        (λ w. w.clock)
        spoken
        (λ w. w.store)
        alice
        key
        a
        b
        p
        t
        w
        (send record { key = key; arguments = a ∷ b ∷ p ∷ t ∷ [] } w).0
        (send record { key = key; arguments = a ∷ b ∷ p ∷ t ∷ [] } w).1
comes key a b p t w = elim (Bool-cases (w.clock == 7)) [
  | inl down ↦ rw down (fails (foreign 3) refl refl)
  | inr up ↦ rw up (answers refl (put_hash_lem key _ w.store) (put_hash_other key alice _ w.store))
]

abbrev sample_laws : WindowLaws send (λ w. w.clock) spoken (λ id. id) handled alice
sample_laws = record {
  hashes = λ w. w.store;
  handled = λ w. w.served;
  failures = λ w. w.failed_calls;
  speaks = spoken-Speaks;
  comes = comes;
  do_failures = λ k w. refl;
  do_handled = λ k w. refl;
  do_now = λ k w. omega arith;
  next_hash = λ r w out. refl;
  next_failures = λ r w out. refl;
  next_handled = λ r w out. refl;
  next_now = λ r w out. omega arith;
}

abbrev service : Handler World
service = limited send (λ w. w.clock) spoken (λ id. id) handled alice sample_laws (foreign 0) single

abbrev first : World
first = record { store = λ k. none; clock = 4; served = 0; failed_calls = 0 }

-- granted, let through by the failure at the time 7, and refused at the time 10
abbrev busy : World
busy =
    (service signed_in
      ((service signed_in ((service signed_in (first, fresh)).0, fresh)).0, fresh)).0

-- the hash is gone
abbrev rested : World
rested = record busy { clock = 3000; store = λ k. none }

abbrev last : World
last = (service signed_in (rested, fresh)).0

busy_run :
    (busy.served ≡ 2)
    × (busy.clock ≡ 11)
    × (busy.failed_calls ≡ 1)
    × (busy.store alice ≡ some record { tokens = 0; last_update = 4 })
unfolding limited rate_limit bucket_key decide eval_token_bucket eval_command eval_result
    get_client_identifier token_bucket settle current refilled str_eq value digits format identify
    go_api_management.Encoding.Hex.encode
busy_run = (refl, refl, refl, refl)

last_run : last.served ≡ 3
unfolding limited rate_limit bucket_key decide eval_token_bucket eval_command eval_result
    get_client_identifier token_bucket settle current refilled str_eq value digits format identify
    go_api_management.Encoding.Hex.encode
last_run = refl

forgotten :
    Elapses send
      (λ w. w.clock)
      spoken
      (λ id. id)
      handled
      alice
      sample_laws
      (foreign 0)
      single
      busy
      rested
forgotten = record {
  on = omega (arith, busy_run.1);
  handles = refl;
  sees = refl;
  finds = expired record { tokens = 0; last_update = 4 } busy_run.3 (omega arith) refl;
}

abbrev sample_run :
    Runs send
      (λ w. w.clock)
      spoken
      (λ id. id)
      handled
      alice
      sample_laws
      (foreign 0)
      single
      last
      first
sample_run = serves signed_in fresh (
    serves signed_in fresh
      (serves signed_in fresh (elapses rested forgotten (serves signed_in fresh (stops refl)))))

window_budget_example :
    (last.served - first.served) * 1000
    ≤ 1 * 1000 + (last.clock - first.clock) * 1 + (last.failed_calls - first.failed_calls) * 1000
window_budget_example =
    window_budget send (λ w. w.clock) spoken (λ id. id) handled alice sample_laws (foreign 0) single
      first last (omega arith) tt sample_run
