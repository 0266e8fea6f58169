-- ===== src/Examples/Tickers.antt =====
-- The ticker of all queues at the server of Examples/Servers.
use pg_que.Base.{ℕ, ◌≤◌, ◌≡◌, refl, ◌==◌, ◌&&◌, not, str_eq, length, Bool-cases, inl, inr, arith}
use pg_que.Base.Selections.{select}
use pg_que.Exec.{ok}
use pg_que.Server.Tables.{Db}
use pg_que.Server.Ticks.{ticks_of, ticker}
use pg_que.Server.Tickers.{ticker_all}
use pg_que.Server.Steps.EachQueue.{HasOwnQueues}
use pg_que.Server.Steps.AllTicked.{ticker_all_ticks}
use pg_que.Examples.Servers.{db, orders}
use pg_que.Examples.Steps.{db-IsValid}

db-HasOwnQueues : HasOwnQueues db.queues
unfolding select
db-HasOwnQueues = record {
  own_name = λ name. elim (Bool-cases (str_eq "orders" name)) [
    | inl hit ↦ rw hit (omega arith)
    | inr miss ↦ rw miss (omega arith)
  ];
  own_id = λ id. elim (Bool-cases (1 == id)) [
    | inl hit ↦ rw hit (omega arith)
    | inr miss ↦ rw miss (omega arith)
  ];
}

ticker_all_ticks_example :
    (n : ℕ) × (db' : Db) × (ticker_all (λ ns. ns) db ≡ (ok n, db'))
    × (n
        ≤ length (select (λ q. not q.queue_external_ticker && not q.queue_ticker_paused) db.queues))
    × (ticks_of 1 db'.ticks ≡ ticks_of 1 (ticker "orders" db).1.ticks)
ticker_all_ticks_example =
    ticker_all_ticks (λ ns. ns) (λ p ns. refl) db db-IsValid db-HasOwnQueues "orders" orders refl
