-- ===== src/Sink/Postgres/Sql.antt =====
-- sink/postgres/postgres.go: the configuration and the statements that the sink builds.
use sluice_go.Naming.{codes}
use sluice_go.Naming.Decimal.{itoa}
use sluice_go.Sink.Values.{Model, value_at, item_of, join}
use sluice_go.Sink.Database.{Statement}
use sluice_go.Prelude.{
  ℕ, suc, ◌+◌, Bool, false, not, ◌||◌, Option, List, [], ◌∷◌, ◌++◌, map, filter, length, Bytes,
  bytes_eq,
}

pub data OnConflictBehavior : Type 0 where
  on_conflict_do_update on_conflict_do_nothing : OnConflictBehavior

pub record Config : Type 0 where
  pub table_name : Bytes
  pub conflict_columns : List Bytes
  pub on_conflict : OnConflictBehavior
  pub update_columns : List Bytes

unfoldable pub has_column : List Bytes → Bytes → Bool
has_column [] c = false
has_column (s ∷ ss) c = bytes_eq s c || has_column ss c

-- "$n" for every column, from the given number on.
unfoldable pub placeholders : ℕ → List Bytes → List Bytes
placeholders n [] = []
placeholders n (c ∷ cs) = (codes "$" ++ itoa n) ∷ placeholders (suc n) cs

-- The parenthesised rows of the VALUES clause; the numbers go on from row to row.
unfoldable pub rows_from : {A : Type 0} → ℕ → List Bytes → List (Model A) → List Bytes
unfolding placeholders
rows_from n cols [] = []
rows_from n cols (m ∷ ms) =
    (codes "(" ++ (join (codes ", ") (placeholders n cols) ++ codes ")"))
    ∷ rows_from (n + length cols) cols ms

unfoldable pub args_of : {A : Type 0} → List Bytes → List (Model A) → List (Option A)
args_of cols [] = []
args_of cols (m ∷ ms) = map (λ c. value_at c (item_of m.update)) cols ++ args_of cols ms

unfoldable pub updated_columns : Config → List Bytes → List Bytes → List Bytes
unfolding has_column
updated_columns cfg cols [] = filter (λ c. not (has_column cfg.conflict_columns c)) cols
updated_columns cfg cols (u ∷ us) = u ∷ us

abbrev pub assignment : Bytes → Bytes
assignment c = c ++ (codes " = EXCLUDED." ++ c)

unfoldable pub conflict_clause : Config → List Bytes → OnConflictBehavior → Bytes
unfolding updated_columns
conflict_clause cfg cols on_conflict_do_nothing = codes "DO NOTHING"
conflict_clause cfg cols on_conflict_do_update =
    codes "DO UPDATE SET "
    ++ join (codes ", ") (map assignment (updated_columns cfg cols cfg.update_columns))

-- The statement of `executeBulk` for rows of the given columns.
unfoldable pub insert_statement : {A : Type 0} → Config → List Bytes → List (Model A) → Statement A
unfolding rows_from args_of conflict_clause
insert_statement cfg cols ms = record {
  sql =
      codes "INSERT INTO "
      ++ (cfg.table_name
          ++ (codes " ("
              ++ (join (codes ", ") cols
                  ++ (codes ") VALUES "
                      ++ (join (codes ", ") (rows_from 1 cols ms)
                          ++ (codes " ON CONFLICT ("
                              ++ (join (codes ", ") cfg.conflict_columns
                                  ++ (codes ") "
                                      ++ conflict_clause cfg cols cfg.on_conflict))))))));
  args = args_of cols ms;
}
