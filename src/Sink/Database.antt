-- ===== src/Sink/Database.antt =====
-- A SQL database as the sinks call it: statements change its state and answer with an error or
-- none. `logged` is a database that also keeps what it accepted.
use sluice_go.Prelude.{◌≡◌, inl, inr, refl, List, ◌∷◌, Option, Bytes, Listed}

-- Exec's arguments: the text with its placeholders, and their values (none is nil).
pub record Statement (A : Type 0) : Type 0 where
  pub sql : Bytes
  pub args : List (Option A)

-- No error, a *pgconn.PgError with its SQLSTATE and message, or any other error.
pub data Executed : Type 0 where
  done : Executed
  pg_error : Bytes → Bytes → Executed
  other_error : Bytes → Executed

pub record Database (A : Type 0) : Type 1 where
  pub State : Type 0
  pub exec : Statement A → State → Executed × State

abbrev pub log_accepted :
    {A : Type 0} → Statement A → Executed → List (Statement A) → List (Statement A)
log_accepted s done log = s ∷ log
log_accepted s (pg_error code msg) log = log
log_accepted s (other_error msg) log = log

abbrev pub logged : {A : Type 0} → Database A → Database A
logged {A} db = record {
  State = db.State × List (Statement A);
  exec = λ s w. let out = db.exec s w.0 in (out.0, (out.1, log_accepted s out.0 w.1));
}

pub Listed-log_accepted :
    {A : Type 0} (s t : Statement A) (e : Executed) (log : List (Statement A))
    → Listed t log
    → Listed t (log_accepted s e log)
Listed-log_accepted s t done log h = inr h
Listed-log_accepted s t (pg_error code msg) log h = h
Listed-log_accepted s t (other_error msg) log h = h

pub log_accepted-done :
    {A : Type 0} (s : Statement A) (e : Executed) (log : List (Statement A))
    → e ≡ done
    → Listed s (log_accepted s e log)
log_accepted-done s done log h = inl refl
log_accepted-done s (pg_error code msg) log h = cc
log_accepted-done s (other_error msg) log h = cc
