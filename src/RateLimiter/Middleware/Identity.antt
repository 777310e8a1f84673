-- ===== src/RateLimiter/Middleware/Identity.antt =====
-- Whom a bucket belongs to.
use go_api_management.Encoding.Hex.{encode-injective}
use go_api_management.Base.{
  ◌≡◌, ◌≢◌, refl, ap, ◌∙◌, arith, Option, none, some, [], ◌∷◌, ◌++◌, Bytes, codes, drop, Lacks, sym,
  All, ◌<◌, ◌↔◌, inl, inr, List, is_empty-ne, ◌⊎◌,
}
use go_api_management.Errors.{Result, ok, err}
use go_api_management.Http.{Request}
use go_api_management.Strings.{trim_space, split}
use go_api_management.Strings.Split.{split_whole, split-append-Lacks}
use go_api_management.RateLimiter.Middleware.{
  get_client_identifier, client_ip, identify, byte_at, bucket_key, hash_identifier,
}

ip-ne-user : (s t : Bytes) → codes "ip:" ++ s ≢ codes "user:" ++ t
ip-ne-user s t e = omega (arith, ap (byte_at 0) e)

identify_user :
    (claims : Result (Option Bytes)) (ip subject : Bytes)
    → identify claims ip ≡ codes "user:" ++ subject
    → claims ≡ ok (some subject)
unfolding identify
identify_user (err e) ip subject h = absurd (ip-ne-user ip subject h)
identify_user (ok none) ip subject h = absurd (ip-ne-user ip subject h)
identify_user (ok (some [])) ip subject h = absurd (ip-ne-user ip subject h)
identify_user (ok (some (c ∷ s))) ip subject h = ap (λ t. ok (some (drop 5 t))) h

identify-some :
    (ip subject : Bytes) → subject ≢ [] → identify (ok (some subject)) ip ≡ codes "user:" ++ subject
unfolding identify
identify-some ip [] h = absurd (h refl)
identify-some ip (c ∷ s) h = refl

-- A signed-in client is known by the subject alone, wherever the request comes from; a client that
-- is not is never taken for one that is.
identifier_by_subject :
    (r q : Request) (subject : Bytes)
    → subject ≢ []
    → r.claims ≡ ok (some subject)
    → (get_client_identifier r ≡ codes "user:" ++ subject)
      × ((get_client_identifier q ≡ get_client_identifier r) → q.claims ≡ ok (some subject))
identifier_by_subject r q subject h e =
    let known : get_client_identifier r ≡ codes "user:" ++ subject =
      unfold get_client_identifier in rw e (identify-some (client_ip r) subject h) in
    (
      known,
      λ same.
          unfold get_client_identifier in
          identify_user q.claims (client_ip q) subject (same ∙ known),
    )

bucket_key-injective :
    (sha256 : Bytes → Bytes) (r q : Request)
    → ((s : Bytes) → All (λ c. c < 256) (sha256 s))
    → bucket_key sha256 q ≡ bucket_key sha256 r
    → sha256 (get_client_identifier q) ≡ sha256 (get_client_identifier r)
unfolding bucket_key hash_identifier
bucket_key-injective sha256 r q are_bytes same =
    encode-injective (sha256 (get_client_identifier q)) (sha256 (get_client_identifier r))
      (are_bytes _) (are_bytes _) (ap (drop 10) same)

identifier-claims :
    (r q : Request)
    → (subject : Bytes) → subject ≢ []
    → r.claims ≡ ok (some subject)
    → q.claims ≡ ok (some subject)
    → get_client_identifier q ≡ get_client_identifier r
identifier-claims r q subject h er eq =
    (identifier_by_subject q r subject h eq).0 ∙ sym (identifier_by_subject r q subject h er).0

-- A request is charged to the bucket of a signed-in user if and only if it carries a token of that user,
-- from whatever address both come, unless SHA-256 has the same digest for two different identifiers.
pub user_bucket_iff :
    (sha256 : Bytes → Bytes) (r q : Request) (subject : Bytes)
    → ((s : Bytes) → All (λ c. c < 256) (sha256 s))
    → ((sha256 (get_client_identifier q) ≡ sha256 (get_client_identifier r))
        → get_client_identifier q ≡ get_client_identifier r)
    → subject ≢ []
    → r.claims ≡ ok (some subject)
    → (bucket_key sha256 q ≡ bucket_key sha256 r) ↔ (q.claims ≡ ok (some subject))
unfolding bucket_key
user_bucket_iff sha256 r q subject are_bytes no_collision h e = (
  λ same.
      (identifier_by_subject r q subject h e).1
        (no_collision (bucket_key-injective sha256 r q are_bytes same)),
  λ claims.
      ap (λ id. codes "ratelimit:" ++ hash_identifier sha256 id)
        (identifier-claims r q subject h e claims),
)

-- The claims name nobody: there are none, they are not read, or the subject is empty.
abbrev pub IsAnonymous : Result (Option Bytes) → Type 0
IsAnonymous claims = (subject : Bytes) → claims ≡ ok (some subject) → subject ≡ []

-- The part is the text in front of the first comma, or the whole text.
abbrev pub IsFirstPart : Bytes → Bytes → Type 0
IsFirstPart part header =
    Lacks b',' part × ((header ≡ part) ⊎ ((rest : Bytes) × (header ≡ part ++ b',' ∷ rest)))

identify-IsAnonymous :
    (claims : Result (Option Bytes)) (ip : Bytes)
    → IsAnonymous claims
    → identify claims ip ≡ codes "ip:" ++ ip
unfolding identify
identify-IsAnonymous (err e) ip h = refl
identify-IsAnonymous (ok none) ip h = refl
identify-IsAnonymous (ok (some [])) ip h = refl
identify-IsAnonymous (ok (some (c ∷ s))) ip h = absurd (cc (h (c ∷ s) refl))

split-IsFirstPart :
    (part header : Bytes)
    → IsFirstPart part header
    → (parts : List Bytes) × (split b',' header ≡ part ∷ parts)
split-IsFirstPart part header (lacks, is) = elim is [
  | inl whole ↦ ([], ap (split b',') whole ∙ split_whole b',' part lacks)
  | inr (rest, e) ↦ (split b',' rest, ap (split b',') e ∙ split-append-Lacks b',' part rest lacks)
]

client_ip_forwarded :
    (r : Request) (part : Bytes)
    → r.header "X-Forwarded-For" ≢ []
    → IsFirstPart part (r.header "X-Forwarded-For")
    → client_ip r ≡ trim_space part
unfolding client_ip
client_ip_forwarded r part given first =
    rw (is_empty-ne _ given, (split-IsFirstPart part _ first).1) refl

-- A client that is not signed in, for whatever reason, is known by the first part of its header
-- `X-Forwarded-For`, without the spaces around it, if the header is not empty: it chooses its own bucket.
pub identifier_forwarded :
    (r : Request) (part : Bytes)
    → IsAnonymous r.claims
    → r.header "X-Forwarded-For" ≢ []
    → IsFirstPart part (r.header "X-Forwarded-For")
    → get_client_identifier r ≡ codes "ip:" ++ trim_space part
unfolding get_client_identifier
identifier_forwarded r part anonymous given first =
    identify-IsAnonymous r.claims (client_ip r) anonymous
    ∙ ap (λ t. codes "ip:" ++ t) (client_ip_forwarded r part given first)
