-- ===== src/RateLimiter/Window/Answer.antt =====
-- The account of a bucket behind one call of EvalTokenBucket (internal/adapters/handler/rate_limiter.go).
use go_api_management.RateLimiter.Account.{Account}
use go_api_management.Encoding.Decimal.{format, value-format}
use go_api_management.RateLimiter.Budget.{passed}
use go_api_management.RateLimiter.{
  Reply, RateLimiterConfig, granted, refused, bad_ttl, token_bucket,
}
use go_api_management.RateLimiter.Command.{Command}
use go_api_management.RateLimiter.Backend.{eval_result, Response, Speaks, failed, not_array, array}
use go_api_management.Errors.{Result, Err, err, ok}
use native.Mathlib.Nat.{zero-add}
use go_api_management.Base.{
  ℕ, refl, [], ◌∷◌, true, false, inl, inr, ◌≡◌, ◌≢◌, arith, Bool, ℤ, Bytes, ◌<◌, ◌≤◌, ◌+◌,
  str_eq_refl, if◌then◌else◌, str_eq, Bool-cases, str_eq_iff,
}
use go_api_management.RateLimiter.Window.{WindowLaws, run_script, Comes, failure_at}
use go_api_management.Http.{Handler}
use go_api_management.RateLimiter.Window.{fails, loses, answers}
use go_api_management.RateLimiter.Account.{Account, later, failed_open, fewer, charged}

-- Whether the answer lets the request through: one, or none.
unfoldable pub passes : Result (Bool × ℤ) → ℕ
passes (err e) = 1
passes (ok (true, remaining)) = 1
passes (ok (false, remaining)) = 0

eval_result-failed : (valkey_nil e : Err) → passes (eval_result valkey_nil (failed e)) ≡ 1
unfolding eval_result passes
eval_result-failed valkey_nil e = refl

-- a reply of the script passes as it says
passes-send :
    (send : Reply → Response) (valkey_nil : Err) (reply : Reply)
    → Speaks send
    → passes (eval_result valkey_nil (send reply)) ≡ passed reply
unfolding eval_result passes
passes-send send valkey_nil (granted n) s = rw s.on_granted refl
passes-send send valkey_nil (refused n) s = rw s.on_refused refl
passes-send send valkey_nil bad_ttl s = rw s.on_bad_ttl refl

module _ {W : Type 0} (client_do : Command → W → Response × W) (now : W → ℕ)
    (send : Reply → Response) (sha256 : Bytes → Bytes) (next : Handler W) (here : Bytes)
    (laws : WindowLaws client_do now send sha256 next here) (valkey_nil : Err)
    (c : RateLimiterConfig) where
  script_lem :
      (key : Bytes) (w : W)
      → run_script client_do now send laws.hashes key
          (format c.capacity)
          (format c.refill_rate)
          (format c.refill_period)
          (format (now w))
          w
        ≡ token_bucket c (now w) (laws.hashes w key)
  script_lem key w =
      rw
        (
          value-format c.capacity,
          value-format c.refill_rate,
          value-format c.refill_period,
          value-format (now w),
        )
        refl

  module _ (rate : 0 < c.refill_rate) (t0 n o : ℕ) (w : W) where
    -- the account behind the answer to a call of the key that is watched
    Comes-Account :
        (response : Response) (w' : W)
        → Comes client_do now send laws.hashes here here
            (format c.capacity)
            (format c.refill_rate)
            (format c.refill_period)
            (format (now w))
            w
            response
            w'
        → now w ≤ now w'
        → Account c t0 (now w) n o (laws.hashes w here)
        → Account c t0
            (now w')
            (passes (eval_result valkey_nil response) + n)
            (failure_at here here response + o)
            (laws.hashes w' here)
    Comes-Account response w' (fails e same hash) le a =
        rw (same, hash, eval_result-failed, str_eq_refl here)
          (later c t0 (1 + n) (1 + o) (now w) (now w') (laws.hashes w here) rate le
            (failed_open c t0 n o (now w) (laws.hashes w here) a))
    Comes-Account response w' (loses e same hash others) le a =
        let run = charged c t0 n o (now w) (laws.hashes w here) rate a in
        let out = token_bucket c (now w) (laws.hashes w here) in
        let less =
          fewer c t0 (passed out.reply + n) o (now w) n o out.stored (omega arith) (omega arith)
            run in
        rw (same, hash, script_lem, eval_result-failed, str_eq_refl here)
          (later c t0 (1 + n) (1 + o) (now w) (now w') out.stored rate le
            (failed_open c t0 n o (now w) out.stored less))
    Comes-Account response w' (answers same hash others) le a =
        let run = charged c t0 n o (now w) (laws.hashes w here) rate a in
        let out = token_bucket c (now w) (laws.hashes w here) in
        let counted =
          fewer c t0 (passed out.reply + n) o (now w) (passed out.reply + n)
            (failure_at here here (send out.reply) + o) out.stored (omega arith) (omega arith)
            run in
        rw (same, hash, script_lem, passes-send send valkey_nil out.reply laws.speaks)
          (later c t0 (passed out.reply + n) (failure_at here here (send out.reply) + o) (now w)
            (now w') out.stored rate le counted)

  -- the same, by the equation of the keys
  key-Account :
      (rate : 0 < c.refill_rate) (t0 n o : ℕ) (w : W) (key : Bytes) (response : Response) (w' : W)
      → key ≡ here
      → Comes client_do now send laws.hashes here key
          (format c.capacity)
          (format c.refill_rate)
          (format c.refill_period)
          (format (now w))
          w
          response
          w'
      → now w ≤ now w'
      → Account c t0 (now w) n o (laws.hashes w here)
      → Account c t0
          (now w')
          (passes (eval_result valkey_nil response) + n)
          (failure_at here key response + o)
          (laws.hashes w' here)
  key-Account rate t0 n o w key response w' same comes le a =
      rw same (Comes-Account rate t0 n o w response w' (rw same at comes) le a)

  other-hash :
      (w : W) (key : Bytes) (response : Response) (w' : W)
      → key ≢ here
      → Comes client_do now send laws.hashes here key
          (format c.capacity)
          (format c.refill_rate)
          (format c.refill_period)
          (format (now w))
          w
          response
          w'
      → laws.hashes w' here ≡ laws.hashes w here
  other-hash w key response w' other (fails e same hash) = hash
  other-hash w key response w' other (loses e same hash others) = others other
  other-hash w key response w' other (answers same hash others) = others other

  other_failure :
      (key : Bytes) (response : Response)
      → str_eq key here ≡ false
      → failure_at here key response ≡ 0
  other_failure key (failed e) h = rw h refl
  other_failure key (not_array e) h = refl
  other_failure key (array ms) h = refl

  abbrev pub sent : Bytes → W → Response × W
  sent key w =
      client_do
        record {
          key = key;
          arguments =
              format c.capacity
              ∷ format c.refill_rate
              ∷ format c.refill_period
              ∷ format (now w)
              ∷ [];
        }
        w

  -- the account behind the answer to any call
  pub sent-Account :
      (rate : 0 < c.refill_rate) (t0 n o : ℕ) (w : W) (key : Bytes)
      → Account c t0 (now w) n o (laws.hashes w here)
      → Account c t0
          (now (sent key w).1)
          ((if str_eq key here then passes (eval_result valkey_nil (sent key w).0) else 0) + n)
          (failure_at here key (sent key w).0 + o)
          (laws.hashes (sent key w).1 here)
  sent-Account rate t0 n o w key a =
      let comes =
        laws.comes key (format c.capacity) (format c.refill_rate) (format c.refill_period)
          (format (now w)) w in
      let le = laws.do_now _ w in
      elim (Bool-cases (str_eq key here)) [
        | inl ours ↦ rw ours (
            key-Account rate t0 n o w key (sent key w).0 (sent key w).1
              ((str_eq_iff key here).0 ours) comes le a)
        | inr other ↦
            let differs : key ≢ here = λ e. absurd (cc (other, (str_eq_iff key here).1 e)) in
            rw
              (
                other,
                other_failure key (sent key w).0 other,
                other-hash w key (sent key w).0 (sent key w).1 differs comes,
                zero-add,
                zero-add,
              )
              (later c t0 n o (now w) (now (sent key w).1) (laws.hashes w here) rate le a)
      ]
