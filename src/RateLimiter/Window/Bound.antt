-- ===== src/RateLimiter/Window/Bound.antt =====
-- How many requests of one bucket reach the handler behind the middleware in a run of the service.
use go_api_management.RateLimiter.Middleware.{decide, rate_limit, bucket_key}
use go_api_management.RateLimiter.Window.Answer.{passes, sent, sent-Account}
use go_api_management.RateLimiter.Account.{Account}
use go_api_management.RateLimiter.{Reply, RateLimiterConfig}
use go_api_management.RateLimiter.Command.{Command, eval_command, eval_token_bucket}
use go_api_management.RateLimiter.Backend.{eval_result, Response}
use go_api_management.Errors.{Result, Err, err, ok}
use go_api_management.Base.{
  ℕ, refl, true, false, ◌≡◌, ◌∙◌, arith, Bool, ℤ, Bytes, ◌<◌, ◌≤◌, ◌+◌, if◌then◌else◌, str_eq, ◌-◌,
  ◌*◌,
}
use go_api_management.RateLimiter.Window.{
  WindowLaws, Runs, stops, serves, elapses, failure_at, Elapses, limited,
}
use go_api_management.Http.{Handler, Request, Writer}
use go_api_management.RateLimiter.Account.{
  Account, IsSound, sound-Account, Account-bound, found-Account, Account-bound, later,
}

module _ {W : Type 0} (client_do : Command → W → Response × W) (now : W → ℕ)
    (send : Reply → Response) (sha256 : Bytes → Bytes) (next : Handler W) (here : Bytes)
    (laws : WindowLaws client_do now send sha256 next here) (valkey_nil : Err)
    (c : RateLimiterConfig) where
  abbrev reply_of : Bytes → W → Response × W
  reply_of = sent client_do now send sha256 next here laws valkey_nil c

  abbrev behind : Request → Writer → Result (Bool × ℤ) → W → W
  behind r out answer w =
      (decide sha256 (eval_token_bucket client_do valkey_nil) now c next r out (answer, w)).0

  -- the part of the middleware behind the answer
  decide_lem :
      (r : Request) (out : Writer) (answer : Result (Bool × ℤ)) (w : W)
      → (now w ≤ now (behind r out answer w))
        × (laws.hashes (behind r out answer w) here ≡ laws.hashes w here)
        × (laws.failures (behind r out answer w) ≡ laws.failures w)
        × (laws.handled (behind r out answer w)
            ≡ (if str_eq (bucket_key sha256 r) here then passes answer else 0) + laws.handled w)
  unfolding decide passes
  decide_lem r out (err e) w = (
    laws.next_now r w out,
    laws.next_hash r w out,
    laws.next_failures r w out,
    laws.next_handled r w out,
  )
  decide_lem r out (ok (true, remaining)) w =
      (laws.next_now r w _, laws.next_hash r w _, laws.next_failures r w _, laws.next_handled r w _)
  decide_lem r out (ok (false, remaining)) w = (omega arith, refl, refl, ground arith)

  -- What was counted since the world `w0`.
  record Ledger (w0 w : W) : Type 0 where
    through : ℕ
    failed_calls : ℕ
    handles : laws.handled w ≡ through + laws.handled w0
    fails_by : laws.failures w ≡ failed_calls + laws.failures w0
    account : Account c (now w0) (now w) through failed_calls (laws.hashes w here)

  module _ (rate : 0 < c.refill_rate) (w0 w : W) where
    elapses-Ledger :
        (v : W)
        → Elapses client_do now send sha256 next here laws valkey_nil c w v
        → Ledger w0 w
        → Ledger w0 v
    elapses-Ledger v e l = record {
      through = l.through;
      failed_calls = l.failed_calls;
      handles = e.handles ∙ l.handles;
      fails_by = e.sees ∙ l.fails_by;
      account =
          let a =
            later c (now w0) l.through l.failed_calls (now w) (now v) (laws.hashes w here) rate e.on
              l.account in
          found-Account c (now w0) l.through l.failed_calls (now v) (laws.hashes w here)
            (laws.hashes v here) rate e.finds a;
    }

    -- behind the call of the server
    behind-Ledger :
        (r : Request) (out : Writer) (answer : Result (Bool × ℤ)) (w1 : W) (n o : ℕ)
        → laws.handled w1 ≡ n + laws.handled w0
        → laws.failures w1 ≡ o + laws.failures w0
        → Account c
            (now w0)
            (now w1)
            ((if str_eq (bucket_key sha256 r) here then passes answer else 0) + n)
            o
            (laws.hashes w1 here)
        → Ledger w0 (behind r out answer w1)
    behind-Ledger r out answer w1 n o h f a =
        let (le, hash, failures, handled) = decide_lem r out answer w1 in
        record {
          through = (if str_eq (bucket_key sha256 r) here then passes answer else 0) + n;
          failed_calls = o;
          handles = omega (arith, handled, h);
          fails_by = failures ∙ f;
          account = rw hash (
              later c (now w0)
                ((if str_eq (bucket_key sha256 r) here then passes answer else 0) + n) o (now w1)
                (now (behind r out answer w1)) (laws.hashes w1 here) rate le a);
        }

    limited-Ledger :
        (r : Request) (out : Writer)
        → Ledger w0 w
        → Ledger w0 (limited client_do now send sha256 next here laws valkey_nil c r (w, out)).0
    unfolding limited rate_limit bucket_key eval_token_bucket eval_command
    limited-Ledger r out l =
        let response = (reply_of (bucket_key sha256 r) w).0 in
        let w1 = (reply_of (bucket_key sha256 r) w).1 in
        let answer = eval_result valkey_nil response in
        let kept_handled = laws.do_handled (eval_command (bucket_key sha256 r) c (now w)) w in
        let failed_by = laws.do_failures (eval_command (bucket_key sha256 r) c (now w)) w in
        behind-Ledger r out answer w1 l.through
          (failure_at here (bucket_key sha256 r) response + l.failed_calls)
          (kept_handled ∙ l.handles) (omega (arith, failed_by, l.fails_by))
          (sent-Account client_do now send sha256 next here laws valkey_nil c rate (now w0)
            l.through l.failed_calls w (bucket_key sha256 r) l.account)

  Runs-Ledger :
      (rate : 0 < c.refill_rate) (w0 w' w : W)
      → Runs client_do now send sha256 next here laws valkey_nil c w' w
      → Ledger w0 w
      → Ledger w0 w'
  Runs-Ledger rate w0 w' w (stops same) l = rw same l
  Runs-Ledger rate w0 w' w (serves r out run) l =
      Runs-Ledger rate w0 w' _ run (limited-Ledger rate w0 w r out l)
  Runs-Ledger rate w0 w' w (elapses v e run) l =
      Runs-Ledger rate w0 w' v run (elapses-Ledger rate w0 w v e l)

  start : (rate : 0 < c.refill_rate) (w : W) → IsSound c (now w) (laws.hashes w here) → Ledger w w
  start rate w sound = record {
    through = 0;
    failed_calls = 0;
    handles = omega arith;
    fails_by = omega arith;
    account = sound-Account c (now w) (laws.hashes w here) rate sound;
  }

  -- In any run of the service, with requests of any clients, time passing and hashes dropped, the
  -- requests of one bucket that reach the handler behind the middleware are no more than the capacity,
  -- what the rate brings in the time of the run, and the failed calls of the server for that bucket, if
  -- the rate is positive and the stored hash is sound at the start.
  pub window_budget :
      (w w' : W)
      → 0 < c.refill_rate
      → IsSound c (now w) (laws.hashes w here)
      → Runs client_do now send sha256 next here laws valkey_nil c w' w
      → (laws.handled w' - laws.handled w) * c.refill_period
        ≤ c.capacity * c.refill_period
          + (now w' - now w) * c.refill_rate
          + (laws.failures w' - laws.failures w) * c.refill_period
  window_budget w w' rate sound run =
      let l = Runs-Ledger rate w w' w run (start rate w sound) in
      let through : laws.handled w' - laws.handled w ≡ l.through = omega (arith, l.handles) in
      let failed_calls : laws.failures w' - laws.failures w ≡ l.failed_calls =
        omega (arith, l.fails_by) in
      rw (through, failed_calls)
        (Account-bound c (now w) (now w') l.through l.failed_calls (laws.hashes w' here) l.account)
