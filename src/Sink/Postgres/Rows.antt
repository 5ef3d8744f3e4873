-- ===== src/Sink/Postgres/Rows.antt =====
-- What a statement of the PostgreSQL sink says of one model, apart from how the sink builds it.
use sluice_go.Naming.{codes}
use sluice_go.Naming.Decimal.{itoa}
use sluice_go.Sink.Values.{
  nothing, text, slice, object, Model, value_at, item_of, join, insert_sorted,
  sorted_columns_from_map, bytes_less,
}
use sluice_go.Sink.Database.{Statement}
use sluice_go.Sink.Postgres.Sql.{
  Config, placeholders, rows_from, args_of, conflict_clause, insert_statement,
}
use sluice_go.Sink.Postgres.{raw_statement}
use sluice_go.Prelude.{
  ℕ, zero, suc, ◌+◌, ◌≡◌, refl, ap, sym, subst, ◌∙◌, ◌⊎◌, inl, inr, Option, some, List, [], ◌∷◌,
  ◌++◌, map, length, length-append, append_assoc, append-nil, Bytes, Bool-cases, Listed, arith,
}

-- "$n", "$n+1", ...: so many, from a number on.
abbrev pub numbered : ℕ → ℕ → List Bytes
numbered n zero = []
numbered n (suc k) = (codes "$" ++ itoa n) ∷ numbered (suc n) k

-- A row of placeholders.
abbrev pub tuple : ℕ → ℕ → Bytes
tuple n k = codes "(" ++ (join (codes ", ") (numbered n k) ++ codes ")")

placeholders-numbered : (n : ℕ) (cols : List Bytes) → placeholders n cols ≡ numbered n (length cols)
unfolding placeholders
placeholders-numbered n [] = refl
placeholders-numbered n (c ∷ cs) =
    ap (λ xs. (codes "$" ++ itoa n) ∷ xs) (placeholders-numbered (suc n) cs)

-- The text of a row as the sink writes it.
abbrev row_text : ℕ → List Bytes → Bytes
row_text n cols = codes "(" ++ (join (codes ", ") (placeholders n cols) ++ codes ")")

row_text-tuple : (n : ℕ) (cols : List Bytes) → row_text n cols ≡ tuple n (length cols)
row_text-tuple n cols =
    ap (λ xs. codes "(" ++ (join (codes ", ") xs ++ codes ")")) (placeholders-numbered n cols)

insert_sorted-new : (c : Bytes) (cs : List Bytes) → Listed c (insert_sorted c cs)
insert_sorted-new c [] = inl refl
insert_sorted-new c (d ∷ ds) = elim (Bool-cases (bytes_less d c)) [
  | inl e ↦ rw e (inr (insert_sorted-new c ds))
  | inr e ↦ rw e (inl refl)
]

insert_sorted-keeps : (c x : Bytes) (cs : List Bytes) → Listed x cs → Listed x (insert_sorted c cs)
insert_sorted-keeps c x [] h = absurd h
insert_sorted-keeps c x (d ∷ ds) h = elim (Bool-cases (bytes_less d c)) [
  | inl e ↦ rw e (elim h [ inl same ↦ inl same | inr l ↦ inr (insert_sorted-keeps c x ds l) ])
  | inr e ↦ rw e (inr h)
]

join-head :
    (t : Bytes) (ts : List Bytes) → (back : Bytes) × (join (codes ", ") (t ∷ ts) ≡ t ++ back)
join-head t [] = ([], sym (append-nil t))
join-head t (u ∷ us) = (codes ", " ++ join (codes ", ") (u ∷ us), refl)

from_zero : (k : ℕ) → k ≡ k + 0
from_zero k = omega arith

further : (k c b l : ℕ) → l ≡ c + b → k + c + b ≡ k + l
further k c b l h = omega arith

one_more : (n : ℕ) → 1 + n ≡ suc n
one_more n = omega arith

module _ {A : Type 0} where
  -- A raw update: an SQL text in the update field, and no filter or a list of arguments.
  abbrev pub IsRaw : Model A → Type 0
  IsRaw m =
      (sql : Bytes) × (m.update ≡ text sql)
      × ((m.filter ≡ nothing) ⊎ ((xs : List A) × (m.filter ≡ slice xs)))

  -- A row with these columns, as they are sorted.
  abbrev pub IsRow : List Bytes → Model A → Type 0
  IsRow cols m =
      (item : List (Bytes × A)) × (m.update ≡ object item) × (cols ≡ sorted_columns_from_map item)

  -- The statement is the model's own text with its own arguments.
  abbrev pub RunsRaw : Statement A → Model A → Type 0
  RunsRaw s m =
      (m.update ≡ text s.sql)
      × (((m.filter ≡ nothing) × (s.args ≡ []))
          ⊎ ((xs : List A) × (m.filter ≡ slice xs) × (s.args ≡ map some xs)))

  -- The statement inserts into the table with columns among which all of the model's map are, one of
  -- its rows has the placeholders from some number on, one for each column, and the arguments of
  -- these numbers are the values of the model's map.
  abbrev pub InsertsRow : Config → Statement A → Model A → Type 0
  InsertsRow cfg s m =
      (item : List (Bytes × A)) × (cols : List Bytes) × (before after : List (Option A)) × (front
        back : Bytes)
      × (m.update ≡ object item)
      × ((c : Bytes) (a : A) → Listed (c, a) item → Listed c cols)
      × (s.args ≡ before ++ (map (λ c. value_at c item) cols ++ after))
      × (s.sql
          ≡ codes "INSERT INTO "
            ++ (cfg.table_name
                ++ (codes " ("
                    ++ (join (codes ", ") cols
                        ++ (codes ") VALUES "
                            ++ (front ++ (tuple (suc (length before)) (length cols) ++ back)))))))

  pub Carries : Config → Statement A → Model A → Type 0
  Carries cfg s m = RunsRaw s m ⊎ InsertsRow cfg s m

  pub raw_statement-Carries :
      (cfg : Config) (m : Model A) → IsRaw m → Carries cfg (raw_statement m) m
  unfolding Carries
  raw_statement-Carries cfg m (sql, e, inl none_given) =
      inl (rw (e, none_given) (refl, inl (refl, refl)))
  raw_statement-Carries cfg m (sql, e, inr (xs, given)) =
      inl (rw (e, given) (refl, inr (xs, refl, refl)))

  -- The sorted columns of a map have all its names.
  sorted_columns-all :
      (item : List (Bytes × A)) (c : Bytes) (a : A)
      → Listed (c, a) item
      → Listed c (sorted_columns_from_map item)
  unfolding sorted_columns_from_map
  sorted_columns-all [] c a h = absurd h
  sorted_columns-all ((k, v) ∷ rest) c a (inl same) =
      subst (λ x. Listed x (insert_sorted k (sorted_columns_from_map rest)))
        (sym (ap (λ (p : Bytes × A). p.0) same))
        (insert_sorted-new k (sorted_columns_from_map rest))
  sorted_columns-all ((k, v) ∷ rest) c a (inr h) =
      insert_sorted-keeps k c _ (sorted_columns-all rest c a h)

  length-map : (f : Bytes → Option A) (cs : List Bytes) → length (map f cs) ≡ length cs
  length-map f [] = refl
  length-map f (c ∷ cs) = ap suc (length-map f cs)

  -- The row of a model among the rows that are numbered from one on, and its arguments.
  abbrev RowAmong : ℕ → List Bytes → List (Model A) → List (Bytes × A) → Type 0
  RowAmong k cols ms item =
      (before after : List (Option A)) × (front back : Bytes) × (args_of cols ms
        ≡ before ++ (map (λ c. value_at c item) cols ++ after))
      × (join (codes ", ") (rows_from k cols ms)
          ≡ front ++ (tuple (k + length before) (length cols) ++ back))

  row_among :
      (k : ℕ) (cols : List Bytes) (ms : List (Model A)) (n : Model A) (item : List (Bytes × A))
      → Listed n ms
      → n.update ≡ object item
      → RowAmong k cols ms item
  unfolding rows_from args_of
  row_among k cols [] n item h e = absurd h
  row_among k cols (m ∷ ms) n item (inl same) e =
      let (back, joined) = join-head (row_text k cols) (rows_from (k + length cols) cols ms) in
      (
        [],
        args_of cols ms,
        [],
        back,
        ap (λ u. map (λ c. value_at c (item_of u)) cols ++ args_of cols ms)
            (ap (λ (x : Model A). x.update) (sym same) ∙ e),
        joined
            ∙ ap (λ t. t ++ back) (row_text-tuple k cols)
            ∙ ap (λ i. tuple i (length cols) ++ back) (from_zero k),
      )
  row_among k cols (m ∷ []) n item (inr h) e = absurd h
  row_among k cols (m ∷ (m' ∷ ms)) n item (inr h) e =
      let (before, after, front, back, args, joined) =
        row_among (k + length cols) cols (m' ∷ ms) n item h e in
      let mine : List (Option A) = map (λ c. value_at c (item_of m.update)) cols in
      let place : k + length cols + length before ≡ k + length (mine ++ before) =
        further k (length cols) (length before) _ (
          length-append mine before
          ∙ ap (λ i. i + length before) (length-map (λ c. value_at c (item_of m.update)) cols)) in
      (
        mine ++ before,
        after,
        row_text k cols ++ (codes ", " ++ front),
        back,
        ap (λ xs. mine ++ xs) args ∙ sym (append_assoc mine before _),
        ap (λ t. row_text k cols ++ (codes ", " ++ t))
              (joined ∙ ap (λ i. front ++ (tuple i (length cols) ++ back)) place)
            ∙ sym (append_assoc (row_text k cols) (codes ", " ++ front) _),
      )

  pub insert_statement-Carries :
      (cfg : Config) (cols : List Bytes) (ms : List (Model A)) (n : Model A)
      → Listed n ms
      → IsRow cols n
      → Carries cfg (insert_statement cfg cols ms) n
  unfolding Carries insert_statement
  insert_statement-Carries cfg cols ms n h (item, e, sorted) =
      let (before, after, front, back, args, joined) = row_among 1 cols ms n item h e in
      let rest : Bytes =
        codes " ON CONFLICT ("
        ++ (join (codes ", ") cfg.conflict_columns
            ++ (codes ") " ++ conflict_clause cfg cols cfg.on_conflict)) in
      let with_rows : Bytes → Bytes = λ x.
        codes "INSERT INTO "
        ++ (cfg.table_name
            ++ (codes " (" ++ (join (codes ", ") cols ++ (codes ") VALUES " ++ x)))) in
      inr (
        item,
        cols,
        before,
        after,
        front,
        back ++ rest,
        e,
        λ c a l. subst (Listed c) (sym sorted) (sorted_columns-all item c a l),
        args,
        ap with_rows (
            ap (λ j. j ++ rest)
              (joined
                ∙ ap (λ i. front ++ (tuple i (length cols) ++ back)) (one_more (length before)))
            ∙ append_assoc front (tuple (suc (length before)) (length cols) ++ back) rest
            ∙ ap (λ t. front ++ t)
                (append_assoc (tuple (suc (length before)) (length cols)) back rest)),
      )
