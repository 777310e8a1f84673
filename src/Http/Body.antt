-- ===== src/Http/Body.antt =====
-- The body of a request, which is consumed by reading it.
use go_api_management.Errors.{Result, ok, err, message, Err}
use go_api_management.Http.{Request}
use go_api_management.Base.{Bytes, refl, [], some, none, ◌≡◌}

-- `io.ReadAll`: what was read, and what reading again gives; an error stays.
abbrev read_all : Result Bytes → Result Bytes × Result Bytes
read_all (ok b) = (ok b, ok [])
read_all (err e) = (err e, err e)

-- readAndBufferBody, of schema_middleware.go and of policy_middleware.go: the bytes, and the request
-- with its body restored.
unfoldable pub read_and_buffer_body : Request → Result Bytes × Request
read_and_buffer_body r = elim r.body [
  | none ↦ (err (message "empty request body"), r)
  | some body ↦
      let (answer, rest) = read_all body in
      let r' : Request = record r { body = some rest } in
      elim answer [ err e ↦ (err e, r') | ok b ↦ (ok b, record r' { body = some (ok b) }) ]
]

-- Reading leaves the request as it was.
pub read_and_buffer_body_lem :
    (r : Request) (b : Bytes) → r.body ≡ some (ok b) → read_and_buffer_body r ≡ (ok b, r)
unfolding read_and_buffer_body
read_and_buffer_body_lem r b e = rw (e, read_and_buffer_body) refl

-- A body that is missing, or that cannot be read.
pub read_and_buffer_body-none :
    (r : Request) → r.body ≡ none → (read_and_buffer_body r).0 ≡ err (message "empty request body")
unfolding read_and_buffer_body
read_and_buffer_body-none r e = rw (e, read_and_buffer_body) refl

pub read_and_buffer_body-err :
    (r : Request) (x : Err) → r.body ≡ some (err x) → (read_and_buffer_body r).0 ≡ err x
unfolding read_and_buffer_body
read_and_buffer_body-err r x e = rw (e, read_and_buffer_body) refl
