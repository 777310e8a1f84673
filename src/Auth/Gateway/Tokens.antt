-- ===== src/Auth/Gateway/Tokens.antt =====
-- The exchange of a code, on the wire.
use go_api_management.Errors.Laws.{Result-cases, >>=-eq-ok, wrapping-eq-ok, ok-injective}
use go_api_management.Auth.{TokenPair, Action}
use go_api_management.Errors.{Result, ok, err, Err, wrapping, wrap}
use go_api_management.Auth.Gateway.{
  GatewayConfig, Client, exchange_code, TokenRequest, read_tokens, send_token_request,
  TokenResponse, Call, exchange, Reply, token_call, token_pair, code_request,
}
use go_api_management.Base.{
  Bytes, refl, [], ◌∷◌, inl, inr, ◌≡◌, ◌∙◌, ◌++◌, List, codes, Bool-cases, ◌⊎◌, ◌==◌, ==_iff, sym,
  ap,
}

-- `sent` is the requests that went out: a call of `send` adds one, and gobreaker's Execute either
-- refuses with an error and does not run the request, or runs it once and gives its result.
pub record ClientLaws {W : Type 0} (client : Client W) : Type 1 where
  pub sent : W → List Call
  pub sent-send : (call : Call) (w : W) → sent (client.send call w).1 ≡ sent w ++ call ∷ []
  pub execute_cases :
      (A : Type 0) (f : Action W (Result A)) (w : W)
      → ((e : Err) × ((client.execute A f w).0 ≡ err e) × (sent (client.execute A f w).1 ≡ sent w))
        ⊎ ((v : W) × (sent v ≡ sent w)
            × ((client.execute A f w).0 ≡ (f v).0)
            × (sent (client.execute A f w).1 ≡ sent (f v).1))

module _ {W : Type 0} (config : GatewayConfig) (client : Client W) (laws : ClientLaws client) where
  -- The request was written, and sent once to the token endpoint, before which nothing else was sent; the
  -- answer to it had status 200 and these tokens.
  pub record IsAnswered (req : TokenRequest) (w w' : W) (t : TokenResponse) : Type 0 where
    pub text : Bytes
    pub is_text : client.marshal req ≡ ok text
    pub start : W
    pub same_sent : laws.sent start ≡ laws.sent w
    pub reply : Reply
    pub answered : (client.send (token_call config client text) start).0 ≡ ok reply
    pub is_200 : reply.status ≡ 200
    pub is_tokens : client.decode_tokens reply.text ≡ ok t
    pub sent : laws.sent w' ≡ laws.sent w ++ token_call config client text ∷ []

  read_sound :
      (answer : Result Reply) (t : TokenResponse)
      → read_tokens config client answer ≡ ok t
      → (reply : Reply) × (answer ≡ ok reply)
        × (reply.status ≡ 200)
        × (client.decode_tokens reply.text ≡ ok t)
  unfolding read_tokens
  read_sound (err e) t h = cc
  read_sound (ok reply) t h = elim (Bool-cases (reply.status == 200)) [
    | inl e ↦ (reply, refl, (==_iff _ _).0 e, wrapping-eq-ok _ _ (rw e at h))
    | inr e ↦ absurd (cc (e, h))
  ]

  exchange_made :
      (call : Call) (v : W)
      → client.new_request call ≡ ok tt
      → exchange config client call (read_tokens config client) (wrap "create token request") v
        ≡ (read_tokens config client (client.send call v).0, (client.send call v).1)
  unfolding exchange
  exchange_made call v made = rw (made, exchange) refl

  exchange_refused :
      (call : Call) (v : W) (e : Err)
      → client.new_request call ≡ err e
      → (exchange config client call (read_tokens config client) (wrap "create token request") v).0
        ≡ err (wrap "create token request" e)
  unfolding exchange
  exchange_refused call v e failed = rw (failed, exchange) refl

  send_marshalled :
      (req : TokenRequest) (v : W) (text : Bytes)
      → client.marshal req ≡ ok text
      → send_token_request config client req v
        ≡ exchange config client
            (token_call config client text)
            (read_tokens config client)
            (wrap "create token request")
            v
  unfolding send_token_request
  send_marshalled req v text is_text = rw (is_text, send_token_request) refl

  send_sound :
      (req : TokenRequest) (v : W) (t : TokenResponse)
      → (send_token_request config client req v).0 ≡ ok t
      → IsAnswered req v (send_token_request config client req v).1 t
  send_sound req v t h = elim (Result-cases (client.marshal req)) [
    | inl (e, failed) ↦ absurd (unfold send_token_request in cc (failed, h))
    | inr (text, is_text) ↦
        let call = token_call config client text in
        elim (Result-cases (client.new_request call)) [
          | inl (e, failed) ↦
              absurd (cc (send_marshalled req v text is_text, exchange_refused call v e failed, h))
          | inr (_, made) ↦
              let step = send_marshalled req v text is_text ∙ exchange_made call v made in
              let (reply, answered, is_200, is_tokens) =
                read_sound (client.send call v).0 t (sym (ap (λ p. p.0) step) ∙ h) in
              record {
                text = text;
                is_text = is_text;
                start = v;
                same_sent = refl;
                reply = reply;
                answered = answered;
                is_200 = is_200;
                is_tokens = is_tokens;
                sent = ap (λ p. laws.sent p.1) step ∙ laws.sent-send call v;
              }
        ]
  ]

  -- The client authenticates, and sends the code with the verifier of the session.
  pub record IsExchange (code verifier : Bytes) (req : TokenRequest) : Type 0 where
    pub grant_type : req.grant_type ≡ codes "authorization_code"
    pub code_sent : req.code ≡ code
    pub verifier_sent : req.code_verifier ≡ verifier
    pub client_id : req.client_id ≡ config.client_id
    pub client_secret : req.client_secret ≡ config.client_secret
    pub redirect_uri : req.redirect_uri ≡ config.redirect_uri

  -- If a code is exchanged for tokens, then one request was sent, to the token endpoint, with the
  -- code and the verifier in it, and the client's answer to it has status 200 and these tokens.
  pub exchange_code_sound :
      (code verifier : Bytes) (w : W) (tokens : TokenPair)
      → (exchange_code config client code verifier w).0 ≡ ok tokens
      → (req : TokenRequest) × (t : TokenResponse) × IsExchange code verifier req
        × (tokens ≡ token_pair t)
        × IsAnswered req w (exchange_code config client code verifier w).1 t
  unfolding exchange_code
  exchange_code_sound code verifier w tokens h =
      let req = code_request config client code verifier in
      let (t, answered, h1) =
        >>=-eq-ok
          (wrapping _ (client.execute TokenResponse (send_token_request config client req) w).0) _
          h in
      let is_answer = wrapping-eq-ok _ _ answered in
      (
        req,
        t,
        unfold code_request in
            record {
              grant_type = refl;
              code_sent = refl;
              verifier_sent = refl;
              client_id = refl;
              client_secret = refl;
              redirect_uri = refl;
            },
        sym (ok-injective h1),
        elim (laws.execute_cases TokenResponse (send_token_request config client req) w) [
          | inl (e, refused, _) ↦ absurd (cc (refused, is_answer))
          | inr (v, before, result, after) ↦
              let a = send_sound req v t (sym result ∙ is_answer) in
              record {
                text = a.text;
                is_text = a.is_text;
                start = a.start;
                same_sent = a.same_sent ∙ before;
                reply = a.reply;
                answered = a.answered;
                is_200 = a.is_200;
                is_tokens = a.is_tokens;
                sent = after ∙ a.sent ∙ ap (λ l. l ++ token_call config client a.text ∷ []) before;
              }
        ],
      )
