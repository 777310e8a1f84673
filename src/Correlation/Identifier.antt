-- ===== src/Correlation/Identifier.antt =====
-- The identifier that the handler, the log and the client see.
use go_api_management.Base.{
  ℕ, some, Bytes, ◌≡◌, ◌≢◌, ◌++◌, refl, [], ◌∷◌, is_empty, not_empty, is_empty-ne, Bool-cases, inl,
  inr, true, false,
}
use go_api_management.Http.{Request, Writer, bytes, set_header, Handler}
use go_api_management.Auth.Pkce.{Filled, generate_uuid_v4}
use go_api_management.Correlation.{
  get_request_id, request_id_of, correlation, LogHandler, handle_record, LogRecord,
}

append_cons-ne : (s : Bytes) (c : ℕ) (t : Bytes) → s ++ c ∷ t ≢ []
append_cons-ne [] c t h = cc
append_cons-ne (a ∷ s) c t h = cc

uuid-ne : (r : Filled) → generate_uuid_v4 r ≢ []
unfolding generate_uuid_v4
uuid-ne r h = append_cons-ne _ _ _ h

module _ {W : Type 0} (random : W → Filled × W) (next : Handler W) (r : Request) (s : W)
    (w : Writer) where
  abbrev identified : Bytes → Request
  identified id = record r { request_id = some id }

  client_absent :
      is_empty (r.header "X-Request-ID") ≡ true
      → request_id_of random r s ≡ (generate_uuid_v4 (random s).0, (random s).1)
  unfolding request_id_of
  client_absent absent = rw (absent, request_id_of) refl

  client_present :
      is_empty (r.header "X-Request-ID") ≡ false
      → request_id_of random r s ≡ (r.header "X-Request-ID", s)
  unfolding request_id_of
  client_present present = rw (present, request_id_of) refl

  -- The handler is called once, with an identifier that is not empty, which GetRequestID gives it
  -- and which the response carries; it is the client's if the client sent one.
  pub correlation_lem :
      (id : Bytes) × (s' : W) × (id ≢ [])
      × (get_request_id (identified id) ≡ id)
      × (correlation random next r (s, w)
          ≡ next (identified id) (s', set_header "X-Request-ID" (bytes id) w))
      × (r.header "X-Request-ID" ≢ [] → id ≡ r.header "X-Request-ID")
  unfolding correlation
  correlation_lem = elim (Bool-cases (is_empty (r.header "X-Request-ID"))) [
    | inl absent ↦ (
      generate_uuid_v4 (random s).0,
      (random s).1,
      uuid-ne (random s).0,
      refl,
      rw (client_absent absent) refl,
      λ given. absurd (cc (absent, is_empty-ne (r.header "X-Request-ID") given)),
    )
    | inr present ↦ (
      r.header "X-Request-ID",
      s,
      not_empty (r.header "X-Request-ID") present,
      refl,
      rw (client_present present) refl,
      λ given. refl,
    )
  ]

  logged :
      (id : Bytes) (inner : LogHandler W) (line : LogRecord) (v : W)
      → id ≢ []
      → handle_record inner (identified id) line v
        ≡ inner
            (identified id)
            (record line { attributes = line.attributes ++ ("request_id", id) ∷ [] })
            v
  unfolding handle_record
  logged id inner line v given = rw (is_empty-ne id given) refl

  -- The handler is called once, with an identifier that is not empty and that the response carries, the
  -- client's if the client sent one; and a line that is logged for the request that the handler gets has
  -- that identifier added to its attributes.
  pub correlated_logs :
      (inner : LogHandler W) (line : LogRecord) (v : W)
      → (id : Bytes) × (s' : W) × (id ≢ [])
        × (correlation random next r (s, w)
            ≡ next (identified id) (s', set_header "X-Request-ID" (bytes id) w))
        × (r.header "X-Request-ID" ≢ [] → id ≡ r.header "X-Request-ID")
        × (handle_record inner (identified id) line v
            ≡ inner
                (identified id)
                (record line { attributes = line.attributes ++ ("request_id", id) ∷ [] })
                v)
  correlated_logs inner line v =
      let (id, s', filled, _, called, same) = correlation_lem in
      (id, s', filled, called, same, logged id inner line v filled)
