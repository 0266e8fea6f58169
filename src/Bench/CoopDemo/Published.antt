-- ===== src/Bench/CoopDemo/Published.antt =====
-- What `_publish` of coop_demo.py sends.
use pg_que.Base.{ℕ, ◌≡◌}
use pg_que.Exec.{Result, ok, err, Exec}
use pg_que.Driver.{Driver}
use pg_que.Bench.Connection.{Connection}

-- A result of the loop is a count, and then it is `sent` and the sizes of the chunks.
abbrev Counts : ℕ → Result ℕ → Type 0
Counts n (ok m) = m ≡ n
Counts n (err e) = Unit
