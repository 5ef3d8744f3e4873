-- ===== src/Sink/Postgres/Settled.antt =====
-- What the PostgreSQL sink owes to the engine: no model of a batch goes without an error or an
-- accepted statement.
use sluice_go.Sink.{BulkWriteResult, SinkError, Answer, failed, answered, class_transient}
use sluice_go.Sink.Values.{Model, error_of}
use sluice_go.Sink.Database.{
  Database, Statement, Executed, done, pg_error, other_error, logged, log_accepted,
  Listed-log_accepted, log_accepted-done,
}
use sluice_go.Sink.Postgres.Sql.{Config, insert_statement}
use sluice_go.Sink.Postgres.{
  Vetted, unvetted, vet, exec_errors, raw_statement, run_many, execute_bulk, retry_rows,
  after_pg_error, after_bulk, write_upserts, bulk_write, is_permanent_sql_state, columns_or_nil,
}
use sluice_go.Engine.Types.{errors_of}
use sluice_go.Engine.Partition.{named}
use sluice_go.Prelude.{
  ◌≡◌, refl, ap, ◌⊎◌, inl, inr, Bool, true, false, Option, List, [], ◌∷◌, ◌++◌, map, Bytes,
  bytes_eq_refl, All, arith, subst, sym, append-nil, Listed,
}
use sluice_go.Sink.Postgres.Sorting.{
  named-append, named_left, named_right, Sorted, vet-Sorted, RowOf-IsRow,
}
use sluice_go.Sink.Postgres.Rows.{
  IsRaw, IsRow, Carries, raw_statement-Carries, insert_statement-Carries,
}

module _ {A : Type 0} (show : Option A → Bytes) (cfg : Config) where
  -- The database accepted a statement that carries the model: its raw update, or an insert with a
  -- row of all the columns and values of its map.
  pub Accepted : List (Statement A) → Model A → Type 0
  Accepted log m = (s : Statement A) × Listed s log × Carries cfg s m

  pub Handled : List SinkError → List (Statement A) → Model A → Type 0
  Handled es log m = (named es m.correlation_key ≡ true) ⊎ Accepted log m

  -- A result accounts for every model; a top-level error promises nothing.
  pub Accounts : List (Model A) → Answer → List (Statement A) → Type 0
  Accounts ms (failed result) log = Unit
  Accounts ms (answered result) log = All (Handled (errors_of result) log) ms

  pub Handled-cases :
      (es : List SinkError) (log : List (Statement A)) (m : Model A)
      → Handled es log m
      → (named es m.correlation_key ≡ true) ⊎ Accepted log m
  unfolding Handled
  Handled-cases es log m h = h

  pub Accounts-answered :
      (ms : List (Model A)) (result : Option BulkWriteResult) (log : List (Statement A))
      → Accounts ms (answered result) log
      → All (Handled (errors_of result) log) ms
  unfolding Accounts
  Accounts-answered ms result log h = h

  exec_errors-cases :
      (m : Model A) (e : Executed) → (e ≡ done) ⊎ (named (exec_errors m e) m.correlation_key ≡ true)
  unfolding named
  exec_errors-cases m done = inl refl
  exec_errors-cases m (pg_error code msg) = inr (ground (arith, bytes_eq_refl m.correlation_key))
  exec_errors-cases m (other_error msg) = inr (ground (arith, bytes_eq_refl m.correlation_key))

  Keeps : List (Statement A) → List (Statement A) → Type 0
  Keeps log log' = (s : Statement A) → Listed s log → Listed s log'

  Handled-head :
      (n m : Model A) (s : Statement A) (e : Executed) (rest : List SinkError)
      (log final : List (Statement A))
      → n ≡ m
      → Keeps (log_accepted s e log) final
      → (Listed s final → Accepted final m)
      → Handled (exec_errors m e ++ rest) final n
  unfolding Handled Keeps
  Handled-head n m s e rest log final same keeps f =
      subst (λ x. Handled (exec_errors m e ++ rest) final x) (sym same)
        (elim (exec_errors-cases m e) [
          | inl ok ↦ inr (f (keeps s (log_accepted-done s e log ok)))
          | inr bad ↦ inl (named_left _ rest m.correlation_key bad)
        ])

  Handled-named :
      (es : List SinkError) (log : List (Statement A)) (n : Model A)
      → named es n.correlation_key ≡ true
      → Handled es log n
  unfolding Handled
  Handled-named es log n h = inl h

  Handled-append_right :
      (xs ys : List SinkError) (log : List (Statement A)) (n : Model A)
      → Handled ys log n
      → Handled (xs ++ ys) log n
  unfolding Handled
  Handled-append_right xs ys log n (inl h) = inl (named_right xs ys n.correlation_key h)
  Handled-append_right xs ys log n (inr h) = inr h

  Handled-append_left :
      (xs ys : List SinkError) (log : List (Statement A)) (n : Model A)
      → Handled xs log n
      → Handled (xs ++ ys) log n
  unfolding Handled
  Handled-append_left xs ys log n (inl h) = inl (named_left xs ys n.correlation_key h)
  Handled-append_left xs ys log n (inr h) = inr h

  Handled-later :
      (es : List SinkError) (log final : List (Statement A)) (n : Model A)
      → Keeps log final
      → Handled es log n
      → Handled es final n
  unfolding Handled Keeps Accepted
  Handled-later es log final n keeps (inl h) = inl h
  Handled-later es log final n keeps (inr (s, h, carries)) = inr (s, keeps s h, carries)

  module _ (db : Database A) where
    open logged db use {State}

    run_many-Keeps :
        (ms : List (Model A)) (d : State) → Keeps d.1 (run_many show (logged db) ms d).1.1
    unfolding run_many Keeps
    run_many-Keeps [] d s h = h
    run_many-Keeps (m ∷ ms) d s h = run_many-Keeps ms _ s (Listed-log_accepted _ s _ d.1 h)

    run_many-Handled :
        (ms : List (Model A)) (d : State) (n : Model A)
        → Listed n ms
        → IsRaw n
        → let out = run_many show (logged db) ms d in Handled out.0 out.1.1 n
    unfolding run_many Accepted
    run_many-Handled [] d n h raw = elim h [ ]
    run_many-Handled (m ∷ ms) d n (inl e) raw =
        Handled-head n m (raw_statement m) _ _ d.1 _ e (run_many-Keeps ms _)
          (λ h. (raw_statement m, h, raw_statement-Carries cfg m (subst IsRaw e raw)))
    run_many-Handled (m ∷ ms) d n (inr h) raw =
        Handled-append_right _ _ _ n (run_many-Handled ms _ n h raw)

    retry_rows-Keeps :
        (cols : List Bytes) (ms : List (Model A)) (d : State)
        → Keeps d.1 (retry_rows show (logged db) cfg cols ms d).1.1
    unfolding retry_rows execute_bulk Keeps
    retry_rows-Keeps cols [] d s h = h
    retry_rows-Keeps cols (m ∷ ms) d s h =
        retry_rows-Keeps cols ms _ s (Listed-log_accepted _ s _ d.1 h)

    retry_rows-Handled :
        (cols : List Bytes) (ms : List (Model A)) (d : State) (n : Model A)
        → Listed n ms
        → IsRow cols n
        → let out = retry_rows show (logged db) cfg cols ms d in Handled out.0 out.1.1 n
    unfolding retry_rows execute_bulk Accepted
    retry_rows-Handled cols [] d n h row = elim h [ ]
    retry_rows-Handled cols (m ∷ ms) d n (inl e) row =
        Handled-head n m (insert_statement cfg cols (m ∷ [])) _ _ d.1 _ e
          (retry_rows-Keeps cols ms _)
          (λ h. (
            insert_statement cfg cols (m ∷ []),
            h,
            insert_statement-Carries cfg cols (m ∷ []) m (inl refl) (subst (IsRow cols) e row),
          ))
    retry_rows-Handled cols (m ∷ ms) d n (inr h) row =
        Handled-append_right _ _ _ n (retry_rows-Handled cols ms _ n h row)

    transient_errors :
        (msg : Bytes) (ms : List (Model A)) (n : Model A)
        → Listed n ms
        → named (map (λ m. error_of m class_transient msg) ms) n.correlation_key ≡ true
    unfolding named
    transient_errors msg [] n h = elim h [ ]
    transient_errors msg (m ∷ ms) n (inl e) =
        ground (arith, bytes_eq_refl m.correlation_key, ap (λ x. x.correlation_key) e)
    transient_errors msg (m ∷ ms) n (inr h) = ground (arith, transient_errors msg ms n h)

    Handled-between :
        (pre xs many ys : List SinkError) (log : List (Statement A)) (n : Model A)
        → Handled (pre ++ many) log n
        → Handled (pre ++ (xs ++ (many ++ ys))) log n
    unfolding Handled
    Handled-between pre xs many ys log n (inl h) = inl (
        ground (
          arith,
          named-append pre many n.correlation_key,
          named-append pre (xs ++ (many ++ ys)) n.correlation_key,
          named-append xs (many ++ ys) n.correlation_key,
          named-append many ys n.correlation_key,
        ))
    Handled-between pre xs many ys log n (inr h) = inr h

    after_pg_error-Handled :
        (permanent : Bool) (cols : List Bytes) (ms : List (Model A)) (pre many : List SinkError)
        (msg : Bytes) (d : State) (n : Model A)
        → (Handled (pre ++ many) d.1 n) ⊎ (Listed n ms × IsRow cols n)
        → let out = after_pg_error show (logged db) cfg cols ms pre many permanent msg d in
          Accounts (n ∷ []) out.0 out.1.1
    unfolding after_pg_error Accounts
    after_pg_error-Handled true cols ms pre many msg d n (inl h) =
        let out = retry_rows show (logged db) cfg cols ms d in
        (
          subst (λ xs. Handled (pre ++ (out.0 ++ xs)) out.1.1 n) (append-nil many)
              (Handled-between pre out.0 many [] out.1.1 n
                (Handled-later (pre ++ many) d.1 out.1.1 n (retry_rows-Keeps cols ms d) h)),
          tt,
        )
    after_pg_error-Handled true cols ms pre many msg d n (inr (h, row)) = (
      Handled-append_right pre _ _ n
          (Handled-append_left _ many _ n (retry_rows-Handled cols ms d n h row)),
      tt,
    )
    after_pg_error-Handled false cols ms pre many msg d n (inl h) =
        (Handled-between pre [] many _ d.1 n h, tt)
    after_pg_error-Handled false cols ms pre many msg d n (inr (h, row)) = (
      Handled-append_right pre _ d.1 n
          (Handled-append_right many _ d.1 n (Handled-named _ d.1 n (transient_errors msg ms n h))),
      tt,
    )

    after_bulk-Handled :
        (e : Executed) (x : db.State) (log : List (Statement A)) (cols : List Bytes)
        (ms : List (Model A)) (pre many : List SinkError) (n : Model A)
        → (Handled (pre ++ many) log n) ⊎ (Listed n ms × IsRow cols n)
        → let s = insert_statement cfg cols ms in
          let out =
            after_bulk show (logged db) cfg cols ms pre many (e, (x, log_accepted s e log)) in
          Accounts (n ∷ []) out.0 out.1.1
    unfolding after_bulk Accounts
    after_bulk-Handled done x log cols ms pre many n (inl h) =
        (Handled-later _ log _ n (unfold Keeps in λ s. λ k. inr k) h, tt)
    after_bulk-Handled done x log cols ms pre many n (inr (h, row)) = (
      unfold Handled Accepted in
          inr
            (insert_statement cfg cols ms, inl refl, insert_statement-Carries cfg cols ms n h row),
      tt,
    )
    after_bulk-Handled (pg_error code msg) x log cols ms pre many n h =
        after_pg_error-Handled (is_permanent_sql_state code) cols ms pre many msg (x, log) n h
    after_bulk-Handled (other_error msg) x log cols ms pre many n h = tt

    -- The model that the loop has sorted is handled once the upserts are written.
    write_upserts-Handled :
        (ms : List (Model A)) (v : Vetted A) (many : List SinkError) (d : State) (n : Model A)
        → (Handled (v.pre_errors ++ many) d.1 n)
          ⊎ (Listed n ms × IsRow (columns_or_nil v.expected_cols) n)
        → let out = write_upserts show (logged db) cfg ms v (many, d) in
          Accounts (n ∷ []) out.0 out.1.1
    unfolding write_upserts execute_bulk
    write_upserts-Handled [] v many d n (inl h) = unfold Accounts in (h, tt)
    write_upserts-Handled [] v many d n (inr (h, row)) = elim h [ ]
    write_upserts-Handled (m ∷ ms) v many d n h =
        after_bulk-Handled _
          (db.exec (insert_statement cfg (columns_or_nil v.expected_cols) (m ∷ ms)) d.0).1 d.1
          (columns_or_nil v.expected_cols) (m ∷ ms) v.pre_errors many n h

    Accounts-all :
        (answer : Answer) (log : List (Statement A)) (P : Model A → Type 0) (ms : List (Model A))
        → ((m : Model A) → P m → Accounts (m ∷ []) answer log)
        → All P ms
        → Accounts ms answer log
    unfolding Accounts
    Accounts-all (failed result) log P ms f h = tt
    Accounts-all (answered result) log P [] f h = tt
    Accounts-all (answered result) log P (m ∷ ms) f h =
        ((f m h.0).0, Accounts-all (answered result) log P ms f h.1)

    Sorted-Accounts :
        (v : Vetted A) (d : State) (n : Model A)
        → Sorted show cfg v n
        → let out =
            write_upserts show
              (logged db)
              cfg
              v.upsert_models
              v
              (run_many show (logged db) v.many_models d) in
          Accounts (n ∷ []) out.0 out.1.1
    unfolding Sorted
    Sorted-Accounts v d n (inl h) =
        write_upserts-Handled v.upsert_models v _ _ n
          (inl (Handled-append_left v.pre_errors _ _ n (Handled-named _ _ n h)))
    Sorted-Accounts v d n (inr (inl (h, raw))) =
        write_upserts-Handled v.upsert_models v _ _ n
          (inl (Handled-append_right v.pre_errors _ _ n (run_many-Handled v.many_models d n h raw)))
    Sorted-Accounts v d n (inr (inr (h, row))) =
        write_upserts-Handled v.upsert_models v _ _ n (inr (h, RowOf-IsRow v.expected_cols n row))

-- BulkWrite on any database: unless it returns a top-level error, each model of the batch is
-- named by an error of the result, or the database accepted a statement that carries the model:
-- its own raw update with its own arguments, or an insert into the table with a row of placeholders
-- whose arguments are the values of the model's map, in columns among which are all of the map.
pub bulk_write-Accounts :
    {A : Type 0} (show : Option A → Bytes) (cfg : Config) (db : Database A) (ms : List (Model A))
    (d : db.State) (log : List (Statement A))
    → let out = bulk_write show (logged db) cfg ms (d, log) in Accounts show cfg ms out.0 out.1.1
unfolding bulk_write
bulk_write-Accounts show cfg db [] d log = unfold Accounts in tt
bulk_write-Accounts show cfg db (m ∷ ms) d log =
    let v = vet show cfg (m ∷ ms) unvetted in
    Accounts-all show cfg db _ _ (Sorted show cfg v) (m ∷ ms)
      (Sorted-Accounts show cfg db v (d, log)) (vet-Sorted show cfg (m ∷ ms) unvetted)
