-- ===== src/Bench/Pool.antt =====
-- benchmark/subconsumer-scaling/consumer_pool.py: one connection receives batches, a pool of
-- threads works on the messages of each, and then the batch is acked. The connection is in
-- autocommit mode; times are milliseconds; the averages of the summary are not modelled.
pub mod Drained
use pg_que.Base.{
  ℕ, zero, suc, ◌+◌, String, Bool, Option, none, some, List, [], ◌∷◌, ltb, leb, ◌==◌, ◌&&◌,
  if◌then◌else◌, length,
}
use pg_que.Value.{Value, nat, str}
use pg_que.Errors.{index_error, runtime_error}
use pg_que.Exec.{Result, ok, err, Exec, pure, lift, ◌>>=◌, ◌>>◌}
use pg_que.Driver.{Driver, Query}
use pg_que.Client.{first_column}
use pg_que.Bench.Connection.{Connection}

pub record Args : Type 0 where
  pub queue : String
  pub consumer : String
  pub max_return : ℕ
  pub expected_messages : ℕ
  pub startup_timeout : ℕ
  pub idle_poll : ℕ

-- The counters of `main`.
pub record Counters : Type 0 where
  pub processed : ℕ
  pub batches : ℕ
  pub empty_polls : ℕ

abbrev pub no_counts : Counters
no_counts = record { processed = 0; batches = 0; empty_polls = 0 }

abbrev pub receive_query : Args → Query
receive_query a = record {
  text = "select * from pgque.receive(%s, %s, %s)";
  params = str a.queue ∷ str a.consumer ∷ nat a.max_return ∷ [];
}

abbrev pub ack_query : Value → Query
ack_query batch_id = record { text = "select pgque.ack(%s)"; params = batch_id ∷ [] }

-- `rows[0][1]`
abbrev pub second_column : List Value → Result Value
second_column [] = err index_error
second_column (v ∷ []) = err index_error
second_column (v ∷ w ∷ row) = ok w

-- `work n` is the time in which the pool's threads handle `n` messages. A handler only sleeps and
-- prints, so that every future has a result.
module _ (D : Driver) (K : Connection D) (work : ℕ → D.State → D.State) (a : Args) where
  abbrev Loop : Type 0
  Loop = Counters → Exec D.State (Option Counters)

  abbrev pub after_batch : Counters → ℕ → Counters
  after_batch c n = record c { processed = c.processed + n; batches = c.batches + 1 }

  abbrev pub after_empty : Counters → Counters
  after_empty c = record c { empty_polls = c.empty_polls + 1 }

  -- The pool is done, or the loop goes round again.
  unfoldable pub next : Loop → Loop
  next again c = if leb a.expected_messages c.processed then pure (some c) else again c

  -- A round with rows: `row` is the first of `n`.
  unfoldable pub on_batch : Loop → Counters → List Value → ℕ → Exec D.State (Option Counters)
  on_batch again c row n = do
    batch_id ← lift (second_column row)
    λ s. (ok tt, work n s)
    rows ← D.execute (ack_query batch_id)
    lift (first_column rows)
    next again (after_batch c n)

  -- A round without rows.
  unfoldable pub on_empty : Loop → ℕ → Counters → Exec D.State (Option Counters)
  on_empty again startup_deadline c s =
      let (now, s1) = K.time s in
      let waited = again (after_empty c) (K.sleep a.idle_poll s1) in
      if leb a.expected_messages c.processed
      then (ok (some (after_empty c)), s)
      else if ltb startup_deadline now && c.processed == 0
      then (err (runtime_error "no batch became visible"), s1)
      else waited

  unfoldable pub on_rows : Loop → ℕ → Counters → List (List Value) → Exec D.State (Option Counters)
  on_rows again startup_deadline c [] = on_empty again startup_deadline c
  on_rows again startup_deadline c (row ∷ rows) = on_batch again c row (suc (length rows))

  -- The loop of `main`, on fuel: `none` means that it ran out.
  unfoldable pub drain_loop : ℕ → ℕ → Loop
  drain_loop zero startup_deadline c = pure none
  drain_loop (suc fuel) startup_deadline c = do
    rows ← D.execute (receive_query a)
    on_rows (drain_loop fuel startup_deadline) startup_deadline c rows

  -- `main`, up to its summary.
  unfoldable pub drain : ℕ → Exec D.State (Option Counters)
  drain fuel s = let (now, s1) = K.time s in drain_loop fuel (now + a.startup_timeout) no_counts s1
