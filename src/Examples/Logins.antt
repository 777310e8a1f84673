-- ===== src/Examples/Logins.antt =====
-- A login and its callback over a table of at most one row.
use go_api_management.Http.{fresh, Request}
use go_api_management.Auth.Handler.Journey.{KeepLaws, IsSent, ComesBack}
use go_api_management.Auth.Handler.Journey.Back.{login_signs_in}
use go_api_management.Examples.Limits.{request}
use go_api_management.Auth.Handler.{login, redirected, callback, signed_in}
use text.Mathlib.Text.{◌==◌}
use go_api_management.Auth.Service.Provenance.Begun.{callback_begun}
use go_api_management.Auth.Sessions.{delete, save, get}
use go_api_management.Errors.{ok}
use go_api_management.Encoding.Base64.{encode_raw, url}
use go_api_management.Auth.Pkce.{generate_uuid_v4, generate_state, generate_verifier}
use go_api_management.Auth.Service.{
  handle_callback, AuthPorts, initiate_auth, new_session, persist_and_redirect, checked, sign_in,
}
use go_api_management.Base.{
  refl, [], ◌∷◌, some, none, inl, inr, ◌≡◌, Option, codes, Bytes, Bool-cases, if◌then◌else◌,
  replicate, str_eq, sym, str_eq_iff, ap, Any, arith, str_eq_refl,
}
use go_api_management.Auth.{AuthSession}
use go_api_management.Examples.Signing.{one_session, query_of, user, tokens, query-row}
use go_api_management.Auth.Service.Provenance.{Runs, RowLaws, starts, logs_in, Began}

abbrev row_at : Option AuthSession → Bytes → Option AuthSession
row_at none id = none
row_at (some s) id = if str_eq s.id id then some s else none

abbrev without : Option AuthSession → Bytes → Option AuthSession
without none id = none
without (some s) id = if str_eq s.id id then none else some s

abbrev one_row : AuthPorts (Option AuthSession)
one_row = record one_session {
  table = record {
    insert = λ s w. (ok tt, some s);
    select = λ id w. (query_of (row_at w id), w);
    delete_by_id = λ id w. (ok (some 1), without w id);
    delete_before = λ t w. (ok (some 0), w);
  };
}

row_at-inserted :
    (new : AuthSession) (id : Bytes) (s : AuthSession)
    → row_at (some new) id ≡ some s
    → (id ≡ new.id) × (s.state ≡ new.state) × (s.code_verifier ≡ new.code_verifier)
row_at-inserted new id s h = elim (Bool-cases (str_eq new.id id)) [
  | inl same ↦
      let e : new ≡ s = cc (same, h) in
      (
        sym ((str_eq_iff new.id id).0 same),
        sym (ap (λ t. t.state) e),
        sym (ap (λ t. t.code_verifier) e),
      )
  | inr other ↦ absurd (cc (other, h))
]

without-row_at :
    (w : Option AuthSession) (gone id : Bytes) (s : AuthSession)
    → row_at (without w gone) id ≡ some s
    → row_at w id ≡ some s
without-row_at none gone id s h = h
without-row_at (some t) gone id s h = elim (Bool-cases (str_eq t.id gone)) [
  | inl same ↦ absurd (cc (same, h))
  | inr other ↦ rw other at h
]

abbrev one_row_laws : RowLaws one_row
one_row_laws = record {
  stored = row_at;
  select-row = λ id w s e. query-row (row_at w id) s e;
  insert-rows = λ new w id s h. inr (row_at-inserted new id s h);
  select-rows = λ id w id' s h. h;
  delete-rows = λ gone w id s h. without-row_at w gone id s h;
  sweep-rows = λ time w id s h. h;
  random-rows = λ n w id s h. h;
  url-rows = λ new w id s h. h;
  exchange-rows = λ code verifier w id s h. h;
  refresh-rows = λ token w id s h. h;
  revoke-rows = λ token w id s h. h;
  info-rows = λ token w id s h. h;
}

abbrev logged_in : Option AuthSession
logged_in = (initiate_auth one_row (codes "/") none).1

abbrev text_of_zeros : Bytes
text_of_zeros = encode_raw url (replicate 32 0)

abbrev sample_id : Bytes
sample_id = generate_uuid_v4 (record { buffer = replicate 16 0; failure = none })

abbrev sample_run : Runs one_row none (none ∷ []) logged_in
sample_run = logs_in (codes "/") [] none (starts refl refl) refl refl

signs_in :
    (handle_callback one_row sample_id (codes "c") text_of_zeros logged_in).0 ≡ ok (user, tokens)
unfolding handle_callback initiate_auth new_session persist_and_redirect save get delete checked
    sign_in generate_state generate_verifier str_eq generate_uuid_v4
    go_api_management.Encoding.Hex.encode encode_raw
signs_in = refl

callback_begun_example :
    (verifier : Bytes) × Any (Began one_row sample_id text_of_zeros verifier) (none ∷ [])
    × ((one_row.provider.exchange_code
          (codes "c")
          verifier
          (delete one_row.table sample_id (get one_row.table sample_id logged_in).1).1).0
        ≡ ok tokens)
callback_begun_example =
    callback_begun one_row one_row_laws none (none ∷ []) logged_in sample_id (codes "c")
      text_of_zeros user tokens (λ id. refl) sample_run signs_in

inserted_row : (new : AuthSession) → row_at (some new) new.id ≡ some new
inserted_row new = rw (str_eq_refl new.id) refl

abbrev one_row_keeps : KeepLaws one_row
one_row_keeps = record {
  stored = row_at;
  insert-stored = λ new w saved. (
    new,
    inserted_row new,
    record { same_state = refl; same_verifier = refl; lasts = omega arith },
  );
  url-stored = λ new w id. refl;
}

abbrev login_request : Request
login_request = record request { query = λ name. codes "/" }

abbrev callback_request : Request
callback_request = record request {
  cookie = λ name. some sample_id;
  query = λ name. if name == "code" then codes "c" else text_of_zeros;
}

sent : IsSent one_row one_row_keeps login_request none sample_id
unfolding login redirected initiate_auth new_session persist_and_redirect save generate_state
    generate_verifier
sent = record { redirects = refl; sets = refl }

comes_back :
    ComesBack one_row one_row_keeps login_request none sample_id callback_request logged_in
      text_of_zeros user tokens
unfolding login redirected initiate_auth new_session persist_and_redirect save get delete
    generate_state generate_verifier str_eq generate_uuid_v4 go_api_management.Encoding.Hex.encode
    encode_raw
comes_back = record {
  cookie = refl;
  code = cc;
  state = cc;
  is_state = refl;
  is_verifier = refl;
  still_there = refl;
  selects = λ kept h. ap query_of h;
  in_time = omega arith;
  exchanged = refl;
  named = refl;
}

login_signs_in_example :
    ((callback one_row callback_request (logged_in, fresh)).1 ≡ signed_in user tokens fresh)
    × ((callback one_row callback_request (logged_in, fresh)).1.status ≡ some 200)
login_signs_in_example =
    login_signs_in one_row one_row_keeps login_request none sample_id callback_request logged_in
      text_of_zeros user tokens sent comes_back
