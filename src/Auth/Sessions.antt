-- ===== src/Auth/Sessions.antt =====
-- internal/adapters/repository/sql_session_repository.go. The database is a parameter: a type `W` of
-- worlds and the four statements that the repository executes on it.
use go_api_management.Base.{ℕ, Option, none, some, Bytes, if◌then◌else◌, ◌==◌}
use go_api_management.Errors.{
  Err, auth, session_not_found, wrap, wrap_of, Result, ok, err, wrapping,
}
use go_api_management.Auth.{Action, AuthSession}

-- What `GetContext` gives: a row, `sql.ErrNoRows`, or another error.
pub data Query : Type 0 where
  row : AuthSession → Query
  no_rows : Query
  query_failed : Err → Query

-- The statements; a deletion gives the number of rows affected where the driver knows it.
pub record SessionTable (W : Type 0) : Type 0 where
  pub insert : AuthSession → Action W (Result (Unit {0}))
  pub select : Bytes → Action W Query
  pub delete_by_id : Bytes → Action W (Result (Option ℕ))
  pub delete_before : ℕ → Action W (Result (Option ℕ))

abbrev pub got : Bytes → Query → Result AuthSession
got id (row s) = ok s
got id no_rows = err (wrap_of (auth session_not_found) "session" id)
got id (query_failed e) = err (wrap "failed to query auth session" e)

abbrev pub deleted : Bytes → Result (Option ℕ) → Result (Unit {0})
deleted id (err e) = err (wrap "failed to delete auth session" e)
deleted id (ok none) = ok tt
deleted id (ok (some n)) =
    if n == 0 then err (wrap_of (auth session_not_found) "session" id) else ok tt

abbrev swept : Result (Option ℕ) → Result (Unit {0})
swept (err e) = err (wrap "failed to delete expired auth sessions" e)
swept (ok n) = ok tt

module _ {W : Type 0} (table : SessionTable W) where
  -- Save; the table fills in the time of creation
  unfoldable pub save : AuthSession → Action W (Result (Unit {0}))
  save session w =
      let (r, w') = table.insert session w in (wrapping "failed to save auth session" r, w')

  -- Get
  unfoldable pub get : Bytes → Action W (Result AuthSession)
  get id w = let (q, w') = table.select id w in (got id q, w')

  -- Delete
  unfoldable pub delete : Bytes → Action W (Result (Unit {0}))
  delete id w = let (r, w') = table.delete_by_id id w in (deleted id r, w')

  -- DeleteExpired, at the time `now`
  unfoldable pub delete_expired : ℕ → Action W (Result (Unit {0}))
  delete_expired now w = let (r, w') = table.delete_before now w in (swept r, w')

-- The interface SessionRepository of internal/core/ports/session_repo.go, and this repository as one.
pub record SessionRepository (W : Type 0) : Type 0 where
  pub save_session : AuthSession → Action W (Result (Unit {0}))
  pub get_session : Bytes → Action W (Result AuthSession)
  pub delete_session : Bytes → Action W (Result (Unit {0}))
  pub delete_expired_sessions : ℕ → Action W (Result (Unit {0}))

pub sql_session_repository : {W : Type 0} → SessionTable W → SessionRepository W
sql_session_repository table = record {
  save_session = save table;
  get_session = get table;
  delete_session = delete table;
  delete_expired_sessions = delete_expired table;
}
