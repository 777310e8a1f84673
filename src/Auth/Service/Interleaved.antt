-- ===== src/Auth/Service/Interleaved.antt =====
-- Callbacks that the server runs at the same time: HandleCallback cut at each of its calls of the
-- repository and of the provider, and the runs in which the cuts of several callbacks alternate.
pub mod Late
pub mod Race
use go_api_management.Auth.Sessions.{get, delete}
use go_api_management.Errors.{Result, wrapping, err, ok, ◌>>=◌}
use go_api_management.Auth.{AuthSession, TokenPair, Action, UserIdentity}
use go_api_management.Auth.Service.{AuthPorts, checked}
use go_api_management.Base.{
  ℕ, Bytes, refl, [], ◌∷◌, some, none, true, false, inl, inr, ◌≡◌, ◌≢◌, ◌∙◌, ◌++◌, arith, ◌||◌,
  ◌&&◌, zero, suc, List,
}

-- Where a callback stands: behind Get, behind Delete, behind ExchangeCode, or returned.
pub data Stage : Type 0 where
  started : Stage
  found : AuthSession → Stage
  removed : AuthSession → Stage
  exchanged : TokenPair → Stage
  returned : Result (UserIdentity × TokenPair) → Stage

pub record Callback : Type 0 where
  pub session_id : Bytes
  pub code : Bytes
  pub state : Bytes
  pub stage : Stage

module _ {W : Type 0} (ports : AuthPorts W) where
  -- HandleCallback up to its next call
  pub advance : Bytes → Bytes → Bytes → Stage → Action W Stage
  advance session_id code state started w =
      let (r, w') = get ports.table session_id w in
      (
        elim (wrapping "retrieve auth session" r) [
          | err e ↦ returned (err e)
          | ok session ↦ found session
        ],
        w',
      )
  advance session_id code state (found session) w =
      let (_, w') = delete ports.table session_id w in (removed session, w')
  advance session_id code state (removed session) w =
      elim (checked ports session state (ports.now w)) [
        | err e ↦ (returned (err e), w)
        | ok done ↦
            let (r, w') = ports.provider.exchange_code code session.code_verifier w in
            (
              elim (wrapping "exchange authorization code" r) [
                | err e ↦ returned (err e)
                | ok tokens ↦ exchanged tokens
              ],
              w',
            )
      ]
  advance session_id code state (exchanged tokens) w =
      let (u, w') = ports.provider.get_user_info tokens.access_token w in
      (returned (wrapping "retrieve user profile" u >>= λ user. ok (user, tokens)), w')
  advance session_id code state (returned r) w = (returned r, w)

  abbrev pub step : Callback → Action W Callback
  step c w =
      let (stage, w') = advance c.session_id c.code c.state c.stage w in
      (record c { stage = stage }, w')

  -- the callback at the place `k` goes on
  pub move : ℕ → List Callback → Action W (List Callback)
  move k [] w = ([], w)
  move zero (c ∷ cs) w = let (c', w') = step c w in (c' ∷ cs, w')
  move (suc k) (c ∷ cs) w = let (cs', w') = move k cs w in (c ∷ cs', w')

  -- The runs from the callbacks and the world on the left to those on the right. `Other` is what the
  -- rest of the program may do meanwhile.
  pub data Runs (Other : W → W → Type 0) (cs' : List Callback) (w' : W)
      : List Callback → W → Type 0 where
    stops : {cs : List Callback} {w : W} → cs' ≡ cs → w' ≡ w → Runs Other cs' w' cs w
    moves :
        {cs : List Callback} {w : W}
        → (k : ℕ) → Runs Other cs' w' (move k cs w).0 (move k cs w).1
        → Runs Other cs' w' cs w
    arrives :
        {cs : List Callback} {w : W}
        → (c : Callback) → c.stage ≡ started
        → Runs Other cs' w' (c ∷ cs) w
        → Runs Other cs' w' cs w
    elsewhere :
        {cs : List Callback} {w : W}
        → (v : W) → Other w v
        → Runs Other cs' w' cs v
        → Runs Other cs' w' cs w
