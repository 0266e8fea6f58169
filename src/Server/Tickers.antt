-- ===== src/Server/Tickers.antt =====
-- `ticker` of sql/pgque.sql, for all the queues that have a ticker of their own.
use pg_que.Base.{
  ℕ, ◌+◌, String, Bool, Option, none, some, List, [], ◌∷◌, ◌&&◌, not, ltb, map, if◌then◌else◌,
}
use pg_que.Base.Selections.{select}
use pg_que.Exec.{Exec, pure, ◌>>=◌}
use pg_que.Server.Tables.{Db, Queue}
use pg_que.Server.Ticks.{ticker}

-- `where not queue_external_ticker and not queue_ticker_paused`
abbrev pub has_ticker : Queue → Bool
has_ticker q = not q.queue_external_ticker && not q.queue_ticker_paused

-- One more if a tick was made.
abbrev pub counted : ℕ → Option ℕ → ℕ
counted res none = res
counted res (some id) = if ltb 0 id then res + 1 else res

-- The loop.
unfoldable pub tick_each : ℕ → List String → Exec Db ℕ
tick_each res [] = pure res
tick_each res (name ∷ names) = ticker name >>= λ id. tick_each (counted res id) names

abbrev pub names : Db → List String
names db = map (λ q. q.queue_name) (select has_ticker db.queues)

-- `ticker` without arguments; `order` is what `order by queue_name` does in the database.
unfoldable pub ticker_all : (List String → List String) → Exec Db ℕ
ticker_all order db = tick_each 0 (order (names db)) db
