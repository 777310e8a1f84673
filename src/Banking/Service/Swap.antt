-- ===== src/Banking/Service/Swap.antt =====
-- The token that InitiateTransfer swaps in, as ExecuteIntranetTransfer takes it.
use go_api_management.Base.{
  ◌+◌, ◌*◌, ◌/◌, ◌≡◌, ◌≢◌, ◌≤◌, refl, sym, str_eq_refl, ◌∙◌, [], ◌∷◌, ◌++◌, Bytes, codes, pos, ltb,
  arith, false,
}
use go_api_management.Errors.{ok}
use go_api_management.Errors.Laws.{ok-injective}
use go_api_management.Banking.{TransferPayload}
use go_api_management.Banking.Jwt.{
  second, generate_internal_jwt, verify_internal_jwt, InternalJwtClaims,
}
use go_api_management.Banking.Jwt.RoundTrip.{JsonLaws, verify-generate}
use go_api_management.Banking.Service.{
  Ports, Outbound, execute_scope, has_scope, authorize, check_signature, prepare,
  execute_intranet_transfer,
}
use go_api_management.Banking.Service.Initiate.{prepare_sound}

module _ {W : Type 0} (ports : Ports W) (laws : JsonLaws ports.tokens) (user_id : Bytes)
    (payload : TransferPayload) (edge intranet : W) (given : ports.shared_secret ≢ [])
    (text : laws.IsText user_id) (scope_text : laws.IsText execute_scope)
    (in_time : ports.now intranet / second ≤ (ports.now edge + 60 * second) / second) where
  swapped_claims : InternalJwtClaims
  swapped_claims = record {
    subject = user_id;
    expires_at = pos ((ports.now edge + 60 * second) / second);
    issued_at = pos (ports.now edge / second);
    scopes = execute_scope ∷ [];
  }

  in_time_ltb : ltb ((ports.now edge + 60 * second) / second) (ports.now intranet / second) ≡ false
  in_time_ltb = ground arith

  swap_verifies :
      (jwt : Bytes)
      → generate_internal_jwt ports.tokens user_id
          (execute_scope ∷ [])
          ports.shared_secret
          (60 * second)
          (ports.now edge)
        ≡ ok jwt
      → verify_internal_jwt ports.tokens jwt ports.shared_secret (ports.now intranet)
        ≡ ok swapped_claims
  unfolding swapped_claims
  swap_verifies jwt made =
      let (t, generated, verdict) =
        verify-generate ports.tokens laws user_id ports.shared_secret (execute_scope ∷ [])
          (60 * second) (ports.now edge) (ports.now intranet) given text (scope_text, tt) in
      let same : t ≡ jwt = ok-injective (sym generated ∙ made) in
      rw (← same) (verdict ∙ rw in_time_ltb refl)

  swap_authorizes :
      (jwt : Bytes)
      → generate_internal_jwt ports.tokens user_id
          (execute_scope ∷ [])
          ports.shared_secret
          (60 * second)
          (ports.now edge)
        ≡ ok jwt
      → authorize ports jwt (ports.now intranet) ≡ ok swapped_claims
  unfolding authorize has_scope swapped_claims
  swap_authorizes jwt made = rw (swap_verifies jwt made, str_eq_refl) refl

  -- The request that the edge sends for a user carries a bearer token; while it is in time the
  -- intranet lets it through, and decides by the signature under the keys of that user.
  pub execute-prepare :
      (out : Outbound)
      → prepare ports user_id payload (ports.now edge) ≡ ok out
      → (jwt : Bytes) × (out.authorization ≡ codes "Bearer " ++ jwt)
        × ((execute_intranet_transfer ports jwt payload intranet).0
            ≡ check_signature ports payload (ports.get_keys_by_user_id user_id intranet).0)
  unfolding execute_intranet_transfer swapped_claims
  execute-prepare out ready =
      let swapped = prepare_sound ports user_id payload edge out ready in
      (
        swapped.jwt,
        swapped.bearer,
        rw (swap_authorizes swapped.jwt swapped.is_jwt, execute_intranet_transfer) refl,
      )
