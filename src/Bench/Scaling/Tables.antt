-- ===== src/Bench/Scaling/Tables.antt =====
-- The tables of `run_one` of run.py, from the log to what remains.
use pg_que.Base.{ℕ, ◌≡◌, ◌∙◌, sym, ap, String, Option, none, some, List, [], sum}
use pg_que.Value.{ℤ}
use pg_que.Exec.{Result, ok, err, Exec, after, follow}
use pg_que.Driver.{Driver}
use pg_que.Bench.Connection.{Connection}
use pg_que.Bench.Events.{Report, no_data, zero_division, written, report, parse_notice_log, counts}
use pg_que.Bench.Events.Totals.{IsAccount, report-IsAccount}
use pg_que.Bench.Preload.{drop_queue_if_exists, prep_queue}
use pg_que.Bench.Preload.Remaining.{IsBacklog, last_cumulative, derive_backlog-IsBacklog}
use pg_que.Bench.Pool.{Args, Counters}
use pg_que.Bench.Scaling.{rows_of, with_connection, run_pool, tables, derived, run_one}

-- A table that adds up to the events.
abbrev AddsUp : List (ℕ × ℕ) → Result (List (ℕ × ℕ)) → Type 0
AddsUp es (ok rows) = sum (counts rows) ≡ sum (counts es)
AddsUp es (err e) = Unit

rows_of-AddsUp : (es : List (ℕ × ℕ)) (w : ℕ) (r : Report) → IsAccount es w r → AddsUp es (rows_of r)
unfolding rows_of
rows_of-AddsUp es w no_data h = ap (λ xs. sum (counts xs)) (sym h)
rows_of-AddsUp es w zero_division h = tt
rows_of-AddsUp es w (written s) (some_there, total, rows, each) = rows ∙ total

module _ (log : List (List ℕ)) (count : ℕ) where
  -- A backlog table, whose last row has consumed all events of the log.
  abbrev pub IsTable : Result (Option (List (ℕ × ℕ × ℕ))) → Type 0
  IsTable (ok (some rows)) =
      IsBacklog count 0 rows × (last_cumulative 0 rows ≡ sum (counts (parse_notice_log log)))
  IsTable (ok none) = Unit
  IsTable (err e) = Unit

  after_rows :
      {S : Type 0} (r : Result (List (ℕ × ℕ))) (s : S)
      (f : List (ℕ × ℕ) → Exec S (Option (List (ℕ × ℕ × ℕ))))
      → AddsUp (parse_notice_log log) r
      → ((rows : List (ℕ × ℕ)) (s' : S)
          → sum (counts rows) ≡ sum (counts (parse_notice_log log))
          → IsTable (f rows s').0)
      → IsTable (follow f r s).0
  after_rows (ok rows) s f total h = h rows s total
  after_rows (err e) s f total h = tt

module _ (D : Driver) (K : Connection D) (work : ℕ → D.State → D.State) (dsn : String) (a : Args)
    (log : List (List ℕ)) where
  tables-IsTable : (s : D.State) → IsTable log a.expected_messages (tables D K work dsn a log s).0
  unfolding tables
  tables-IsTable s =
      let es = parse_notice_log log in
      after_rows log a.expected_messages (rows_of (report log [] 1)) s _
        (rows_of-AddsUp es 1 (report log [] 1) (report-IsAccount log [] 1))
        (λ rows s1 total.
          let (r, s2) = with_connection D K work dsn (drop_queue_if_exists D a.queue) s1 in
          after (IsTable log a.expected_messages) _ r s2 (λ e. tt)
            (λ u s3.
              let (backlog, end) = derive_backlog-IsBacklog a.expected_messages rows in
              (backlog, end ∙ total)))

  derived-IsTable :
      (drained : Option Counters) (s : D.State)
      → IsTable log a.expected_messages (derived D K work dsn a log drained s).0
  unfolding derived
  derived-IsTable none s = tt
  derived-IsTable (some counters) s = tables-IsTable s

  -- If a run of the scaling benchmark ends without an error and within its fuel, its backlog table
  -- never rises, and its last row has consumed exactly the events that the pool has logged.
  pub run_one-IsTable :
      (batch_size : ℤ) (fuel : ℕ) (s : D.State)
      → IsTable log a.expected_messages (run_one D K work dsn a batch_size log fuel s).0
  unfolding run_one
  run_one-IsTable batch_size fuel s =
      let prep = prep_queue D a.queue a.consumer (ℤ.pos a.expected_messages) batch_size in
      let (r, s1) = with_connection D K work dsn prep s in
      after (IsTable log a.expected_messages) _ r s1 (λ e. tt)
        (λ u s2.
          let (d, s3) =
            run_pool D K work dsn (record a { max_return = a.expected_messages }) fuel s2 in
          after (IsTable log a.expected_messages) _ d s3 (λ e. tt) derived-IsTable)
