-- ===== src/Banking/Handler/Execution.antt =====
-- ExecutePrivateTransfer: which requests it answers with 200.
use go_api_management.Strings.Prefix.{has_prefix-append, trim_prefix-append, append-trimmed}
use go_api_management.Errors.Laws.{Result-cases}
use go_api_management.Strings.{has_prefix, trim_prefix}
use go_api_management.Banking.Service.Execute.{MayExecute, execute_iff}
use go_api_management.Errors.{ok, Result, err}
use go_api_management.Banking.{TransferPayload}
use go_api_management.Http.{Request, Writer, fresh, Value}
use go_api_management.Banking.Handler.{BodyDecoder, execute_private_transfer, reply}
use go_api_management.Banking.Service.{Ports, execute_intranet_transfer}
use go_api_management.Base.{
  Bytes, refl, some, false, inl, inr, ◌≡◌, ◌++◌, arith, ◌||◌, codes, is_empty, Bool-cases, not,
  or-eq-false, sym, not-eq-false, ◌≢◌, ℕ, List, String,
}
use go_api_management.Http.Status.{other_status}

-- An answer with 200 to a call of the service means that the call succeeded.
pub reply_200 :
    {W : Type 0} (code : ℕ) (object : List (String × Value)) (answer : Result (Unit {0}) × W)
    → code ≢ 200
    → (reply code object fresh answer).1.status ≡ some 200
    → answer.0 ≡ ok tt
reply_200 code object (err e, s') other h = absurd (other_status h other)
reply_200 code object (ok done, s') other h = refl

module _ {W : Type 0} (ports : Ports W) (decoder : BodyDecoder) (r : Request) (s : W) where
  abbrev served : Writer
  served = (execute_private_transfer ports decoder r (s, fresh)).1

  -- a bearer token in the header, and a body that decodes to a transfer that the token may execute
  pub record IsExecution : Type 0 where
    pub token : Bytes
    pub bearer : r.header "Authorization" ≡ codes "Bearer " ++ token
    pub payload : TransferPayload
    pub is_payload : decoder.decode_transfer r.body ≡ ok payload
    pub may : MayExecute ports token payload s

  pub served_sound :
      (execute_private_transfer ports decoder r (s, fresh)).1.status ≡ some 200 → IsExecution
  unfolding execute_private_transfer
  served_sound h =
      let auth = r.header "Authorization" in
      elim (Bool-cases (is_empty auth || not (has_prefix auth (codes "Bearer ")))) [
        | inl missing ↦
            absurd (other_status (rw (missing, execute_private_transfer) at h) (omega arith))
        | inr given ↦ elim (Result-cases (decoder.decode_transfer r.body)) [
          | inl (e, bad) ↦
              absurd (other_status (rw (given, execute_private_transfer, bad) at h) (omega arith))
          | inr (payload, good) ↦
              let token = trim_prefix auth (codes "Bearer ") in
              let (_, prefixed) = or-eq-false _ _ given in
              record {
                token = token;
                bearer = sym (append-trimmed auth (codes "Bearer ") (not-eq-false _ prefixed));
                payload = payload;
                is_payload = good;
                may = (execute_iff ports token payload s).0 (
                    reply_200 401 _ (execute_intranet_transfer ports token payload s) (omega arith)
                      (rw (given, execute_private_transfer, good) at h));
              }
        ]
      ]

  pub served_complete :
      IsExecution → (execute_private_transfer ports decoder r (s, fresh)).1.status ≡ some 200
  unfolding execute_private_transfer
  served_complete x =
      let auth = r.header "Authorization" in
      let given : (is_empty auth || not (has_prefix auth (codes "Bearer "))) ≡ false =
        rw (x.bearer, has_prefix-append (codes "Bearer ") x.token) refl in
      let bare : trim_prefix auth (codes "Bearer ") ≡ x.token =
        rw x.bearer (trim_prefix-append (codes "Bearer ") x.token) in
      let done = (execute_iff ports x.token x.payload s).1 x.may in
      rw (given, execute_private_transfer, x.is_payload, bare, done) refl
