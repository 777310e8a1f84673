-- ===== src/Auth/Pkce.antt =====
-- internal/adapters/crypto/pkce.go, and generateUUIDv4 of internal/core/services/auth_service.go. What
-- `rand.Read` leaves in a buffer of the given length, and its error, is a parameter.
pub mod Shape
pub mod Uuid
use go_api_management.Base.{
  ℕ, ◌+◌, ◌%◌, List, [], ◌∷◌, ◌++◌, Option, none, some, String, Bytes, take, drop,
}
use go_api_management.Errors.{Err, wrap, Result, ok, err}
use go_api_management.Encoding.Base64.{url, encode_raw}
use go_api_management.Encoding.Hex.{encode}

-- `rand.Read(make([]byte, n))`: the buffer, and the error if there is one
pub record Filled : Type 0 where
  pub buffer : Bytes
  pub failure : Option Err

-- the 32 bytes of a state or of a verifier
unfoldable encoded_random : String → Filled → Result Bytes
encoded_random text r = elim r.failure [
  | some e ↦ err (wrap text e)
  | none ↦ ok (encode_raw url r.buffer)
]

-- GenerateState
unfoldable pub generate_state : Filled → Result Bytes
unfolding encoded_random
generate_state r = encoded_random "read random bytes for state" r

-- GenerateVerifier
unfoldable pub generate_verifier : Filled → Result Bytes
unfolding encoded_random
generate_verifier r = encoded_random "read random bytes for PKCE verifier" r

-- DeriveChallenge, over SHA-256
unfoldable pub derive_challenge : (Bytes → Bytes) → Bytes → Bytes
derive_challenge sha256 code_verifier = encode_raw url (sha256 code_verifier)

-- the bits of the version and of the variant
unfoldable stamped : Bytes → Bytes
stamped (a ∷ b ∷ c ∷ d ∷ e ∷ f ∷ g ∷ h ∷ i ∷ rest) =
    a ∷ b ∷ c ∷ d ∷ e ∷ f ∷ (g % 16 + 64) ∷ h ∷ (i % 64 + 128) ∷ rest
stamped uuid = uuid

-- generateUUIDv4
unfoldable pub generate_uuid_v4 : Filled → Bytes
unfolding stamped
generate_uuid_v4 r =
    let uuid = stamped r.buffer in
    encode (take 4 uuid)
    ++ b'-' ∷ encode (take 2 (drop 4 uuid))
    ++ b'-' ∷ encode (take 2 (drop 6 uuid))
    ++ b'-' ∷ encode (take 2 (drop 8 uuid))
    ++ b'-' ∷ encode (drop 10 uuid)
