-- ===== src/Examples/Journey.antt =====
-- A transfer at the intranet, and its way there, at concrete inputs.
use go_api_management.Banking.Signature.Accepts.{strict}
use go_api_management.Banking.Service.{execute_scope}
use go_api_management.Banking.Jwt.Sample.{sample_laws, sample_library, sample-IsText}
use go_api_management.Policy.{Object, list}
use go_api_management.Http.{Request}
use go_api_management.Banking.Handler.{BodyDecoder}
use go_api_management.Schema.Valid.{ValidTransfer}
use go_api_management.Banking.Jwt.{InternalJwtClaims}
use go_api_management.Schema.{PayloadJson}
use go_api_management.Banking.Handler.Journey.{edge_to_ledger, ReadBack}
use go_api_management.Errors.{Result, err, ok, foreign}
use go_api_management.Banking.Service.Execute.{Signs}
use go_api_management.Base.{
  Bytes, refl, [], ◌∷◌, some, none, ◌≡◌, arith, Option, ◌↔◌, codes, ap, if◌then◌else◌, str_eq, sym,
  here, map, List, All, inl,
}
use go_api_management.Examples.Transfers.{
  transfer, sample_ports, sample_request, sample_request_lem, device_key, device_library,
}
use go_api_management.Encoding.Hex
use go_api_management.Examples.Edge.{rules_engine, collect, no_query, silent}
use go_api_management.Banking.Handler.Intranet.{IntranetLaws, IsAdmitted, private_200_iff, intranet}

abbrev transfer_json : PayloadJson
transfer_json = record {
  unmarshal_registration = λ t. err (foreign 0);
  unmarshal_transfer = λ t. ok transfer;
  unicode_lower = λ s. s;
}

abbrev transfer_decoder : BodyDecoder
transfer_decoder = record {
  decode_registration = λ b. err (foreign 0);
  decode_transfer = λ b. ok transfer;
}

abbrev transfer_laws : IntranetLaws transfer_decoder transfer_json rules_engine no_query
transfer_laws = record { eval_rules = λ s input. refl; decode-unmarshal = λ t p h. h }

-- the claims as a map
abbrev claims_map : InternalJwtClaims → Object
claims_map c k = if str_eq k (codes "scopes") then some (list (map some c.scopes)) else none

abbrev map_of : Result InternalJwtClaims → Option Object
map_of (ok c) = some (claims_map c)
map_of (err e) = none

abbrev claims_reader : Bytes → Option Object
claims_reader t = map_of (sample_library.unmarshal_claims t)

abbrev delivered : Request
delivered = record {
  method = codes "POST";
  path = codes "/private/transfers";
  query = λ k. [];
  header = λ k. sample_request.authorization;
  cookie = λ k. none;
  remote_addr = codes "192.0.2.1:1234";
  body = some (ok sample_request.body);
  claims = ok none;
  request_id = none;
}

private_200_iff_example :
    ((intranet sample_ports transfer_decoder collect transfer_json rules_engine claims_reader
        no_query silent transfer_laws delivered refl refl []).1.status
      ≡ some 200)
    ↔ IsAdmitted sample_ports transfer_decoder collect transfer_json rules_engine claims_reader
        no_query silent transfer_laws delivered refl refl []
private_200_iff_example =
    private_200_iff sample_ports transfer_decoder collect transfer_json rules_engine claims_reader
      no_query silent transfer_laws delivered refl refl []

texts : (l : List Bytes) → All sample_laws.IsText l
texts [] = tt
texts (s ∷ l) = (sample-IsText s, texts l)

abbrev read_back : ReadBack sample_ports sample_laws transfer_json claims_reader
read_back = record {
  IsPlain = λ p. p ≡ transfer;
  unmarshal-marshal = λ p text plain _. ap ok (sym plain);
  claims_object = claims_map;
  is_object =
      λ c. rw (sample_laws.unmarshal-marshal c (sample-IsText c.subject) (texts c.scopes)) refl;
  no_scope = λ c. unfold str_eq in refl;
  its_scopes = λ c _. unfold str_eq in refl;
}

transfer-ValidTransfer : ValidTransfer transfer
transfer-ValidTransfer = record {
  id = cc;
  sender = omega arith;
  receiver = omega arith;
  amount = refl;
  currency = refl;
  timestamp = refl;
  signature = cc;
}

pub signs : Signs device_library transfer device_key
signs = record {
  pem_given = cc;
  signature_given = cc;
  block = codes "pem";
  is_block = refl;
  key = 7;
  is_key = refl;
  sig = 0 ∷ 255 ∷ [];
  is_sig = inl (unfold Hex.decode in refl);
  verifies = strict (cc) refl;
}

edge_to_ledger_example :
    (intranet sample_ports transfer_decoder collect transfer_json rules_engine claims_reader
      no_query silent transfer_laws delivered refl refl []).1.status
    ≡ some 200
edge_to_ledger_example =
    edge_to_ledger sample_ports sample_laws transfer_decoder collect transfer_json rules_engine
      claims_reader no_query silent transfer_laws read_back (codes "u1") (cc)
      (sample-IsText (codes "u1")) (sample-IsText execute_scope) transfer transfer-ValidTransfer
      refl [] [] sample_request delivered (device_key ∷ []) sample_request_lem
      (record { posted = refl; on_path = refl; header = refl; body = refl }) (omega arith) refl
      (here signs)
