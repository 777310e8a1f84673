-- ===== src/Banking/Service/Initiate.antt =====
-- InitiateTransfer: what leaves the edge.
use go_api_management.Base.{
  or-eq-false, ◌*◌, false, ◌||◌, ◌≡◌, ◌≢◌, ◌⊎◌, ◌∙◌, sym, refl, ap, List, [], ◌∷◌, ◌++◌, Bytes,
  String, codes, is_empty, not_empty, is_nonpositive, inl, inr,
}
use go_api_management.Errors.{Err, wrap, Result, ok, err, refuse, wrapping}
use go_api_management.Errors.Laws.{
  >>=-eq-ok, refuse-eq-ok, wrapping-eq-ok, ok-injective, Result-cases,
}
use go_api_management.Banking.{TransferPayload}
use go_api_management.Banking.Jwt.{second, generate_internal_jwt}
use go_api_management.Banking.Service.{
  Ports, Action, Outbound, execute_scope, forward, prepare, initiate_transfer,
}

-- `sent` is the requests that went out, in order: a call of `send` adds one, and `gobreaker`'s Execute
-- either refuses with an error and does not run the request, or runs it once and gives its result.
pub record BreakerLaws {W : Type 0} (ports : Ports W) : Type 0 where
  pub sent : W → List Outbound
  pub sent-send : (out : Outbound) (w : W) → sent (ports.send out w).1 ≡ sent w ++ out ∷ []
  pub execute_cases :
      (f : Action W (Result (Unit {0}))) (w : W)
      → ((e : Err) × ((ports.execute f w).0 ≡ err e) × (sent (ports.execute f w).1 ≡ sent w))
        ⊎ ((v : W) × (sent v ≡ sent w)
            × ((ports.execute f w).0 ≡ (f v).0)
            × (sent (ports.execute f w).1 ≡ sent (f v).1))

module _ {W : Type 0} (ports : Ports W) (user_id : Bytes) (payload : TransferPayload) (w : W) where
  -- The request carries the payload and an internal token for the user, and the payload is sensible.
  pub record IsSwapped (out : Outbound) : Type 0 where
    pub amount : is_nonpositive payload.amount_cents ≡ false
    pub sender : payload.sender_account ≢ []
    pub receiver : payload.receiver_account ≢ []
    pub jwt : Bytes
    pub is_jwt :
        generate_internal_jwt ports.tokens user_id
          (execute_scope ∷ [])
          ports.shared_secret
          (60 * second)
          (ports.now w)
        ≡ ok jwt
    pub to : out.url ≡ ports.private_url
    pub bearer : out.authorization ≡ codes "Bearer " ++ jwt
    pub carries : ports.marshal_payload payload ≡ ok out.body

  pub prepare_sound :
      (out : Outbound) → prepare ports user_id payload (ports.now w) ≡ ok out → IsSwapped out
  unfolding prepare
  prepare_sound out h =
      let (_, amount, h1) = >>=-eq-ok (refuse (is_nonpositive payload.amount_cents) _) _ h in
      let (_, accounts, h2) =
        >>=-eq-ok (refuse (is_empty payload.sender_account || is_empty payload.receiver_account) _)
          _ h1 in
      let (jwt, is_jwt, h3) =
        >>=-eq-ok
          (wrapping _ (
            generate_internal_jwt ports.tokens user_id (execute_scope ∷ []) ports.shared_secret
              (60 * second) (ports.now w)))
          _ h2 in
      let (body, is_body, h4) = >>=-eq-ok (wrapping _ (ports.marshal_payload payload)) _ h3 in
      let same = ok-injective h4 in
      let (s, r) = or-eq-false _ _ (refuse-eq-ok _ _ accounts) in
      record {
        amount = refuse-eq-ok _ _ amount;
        sender = not_empty _ s;
        receiver = not_empty _ r;
        jwt = jwt;
        is_jwt = wrapping-eq-ok _ _ is_jwt;
        to = sym (ap (λ o. o.url) same);
        bearer = sym (ap (λ o. o.authorization) same);
        carries = wrapping-eq-ok _ _ is_body ∙ ap (λ o. ok o.body) same;
      }

module _ {W : Type 0} (ports : Ports W) (laws : BreakerLaws ports) (user_id : Bytes)
    (payload : TransferPayload) (w : W) where
  abbrev pub Swapped : Outbound → Type 0
  Swapped out = IsSwapped ports user_id payload w out

  forward_sends :
      (out : Outbound) (v : W)
      → ((laws.sent (forward ports out v).1 ≡ laws.sent v)
          × (e : Err) × ((forward ports out v).0 ≡ err e))
        ⊎ (laws.sent (forward ports out v).1 ≡ laws.sent v ++ out ∷ [])
  unfolding forward
  forward_sends out v = elim (Result-cases (ports.new_request out)) [
    | inl (e, bad) ↦ inl (rw (bad, forward), e, rw (bad, forward))
    | inr (done, good) ↦ inr (rw (good, forward) (laws.sent-send out v))
  ]

  abbrev pub outcome : Result (Unit {0}) × W
  outcome = initiate_transfer ports user_id payload w

  abbrev pub Stayed : Type 0
  Stayed = (laws.sent outcome.1 ≡ laws.sent w) × (e : Err) × (outcome.0 ≡ err e)

  abbrev pub Sent : Outbound → Type 0
  Sent out = laws.sent outcome.1 ≡ laws.sent w ++ out ∷ []

  wrapping-err :
      (r : Result (Unit {0})) {e : Err} (text : String)
      → r ≡ err e
      → wrapping text r ≡ err (wrap text e)
  wrapping-err (ok u) text h = cc
  wrapping-err (err e) text h = ap (λ r. wrapping text r) h

  ran : (out : Outbound) → prepare ports user_id payload (ports.now w) ≡ ok out → Stayed ⊎ Sent out
  unfolding initiate_transfer
  ran out ready = elim (laws.execute_cases (forward ports out) w) [
    | inl (e, refused, same) ↦ inl (
      rw (ready, initiate_transfer) same,
      wrap "transfer execution failed" e,
      rw (ready, initiate_transfer) (wrapping-err _ "transfer execution failed" refused),
    )
    | inr (v, before, result, after) ↦ elim (forward_sends out v) [
      | inl (same, e, failed) ↦ inl (
        rw (ready, initiate_transfer) (after ∙ same ∙ before),
        wrap "transfer execution failed" e,
        rw (ready, initiate_transfer)
            (wrapping-err _ "transfer execution failed" (result ∙ failed)),
      )
      | inr one ↦ inr (rw (ready, initiate_transfer) (after ∙ one ∙ ap (λ l. l ++ out ∷ []) before))
    ]
  ]

  -- At most one request goes out, and it is for a sensible payload and carries an internal token for
  -- the user; if none goes out the transfer fails.
  pub initiate_sends : Stayed ⊎ ((out : Outbound) × Swapped out × Sent out)
  initiate_sends = elim (Result-cases (prepare ports user_id payload (ports.now w))) [
    | inl (e, refused) ↦ inl (
      unfold initiate_transfer in rw (refused, initiate_transfer) refl,
      e,
      unfold initiate_transfer in rw (refused, initiate_transfer) refl,
    )
    | inr (out, ready) ↦ elim (ran out ready) [
      | inl stayed ↦ inl stayed
      | inr sent ↦ inr (out, prepare_sound ports user_id payload w out ready, sent)
    ]
  ]
