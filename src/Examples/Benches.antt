-- ===== src/Examples/Benches.antt =====
-- The programs of the benchmarks, at concrete arguments.
use pg_que.Base.{ℕ, ◌+◌, ◌<◌, ◌≡◌, false, none, some, length, get_elem?, arith, List, [], ◌∷◌, sum}
use pg_que.Base.Texts.{codes}
use pg_que.Value.{Value, ℤ, null, nat}
use pg_que.Exec.{ok, Exec}
use pg_que.Driver.{Driver, Query}
use pg_que.Bench.Connection.{Connection}
use pg_que.Bench.Events.{counts}
use pg_que.Bench.Charts.{smooth}
use pg_que.Bench.Charts.Means.{near, smooth-near}
use pg_que.Bench.Preload.{payload_chunks, derive_backlog}
use pg_que.Bench.Preload.Chunks.{IsChunking, payload_chunks-IsChunking}
use pg_que.Bench.Preload.Remaining.{IsBacklog, last_cumulative, derive_backlog-IsBacklog}
use pg_que.Bench.Pool.{Args}
use pg_que.Examples.Toy.{Toy, toy, toy_commit}
use pg_que.Examples.Polls.{server}

abbrev pub log : List (List ℕ)
log =
    codes "NOTICE:  ev ts=1700000003 n=5"
    ∷ codes "progress: 10.0 s"
    ∷ codes "NOTICE:  ev ts=1700000005 n=12"
    ∷ []

abbrev pub producer_files : List (List (List ℕ))
producer_files = (codes "1700000000 12 3" ∷ []) ∷ []

payload_chunks-IsChunking_example :
    IsChunking (ℤ.pos 7) (ℤ.pos 3) (payload_chunks (ℤ.pos 7) (ℤ.pos 3))
payload_chunks-IsChunking_example = payload_chunks-IsChunking (ℤ.pos 7) (ℤ.pos 3)

abbrev table : List (ℕ × ℕ)
table = (0, 2) ∷ (1, 0) ∷ (2, 5) ∷ []

derive_backlog-IsBacklog_example :
    IsBacklog 8 0 (derive_backlog 8 table)
    × (last_cumulative 0 (derive_backlog 8 table) ≡ sum (counts table))
derive_backlog-IsBacklog_example = derive_backlog-IsBacklog 8 table

-- A clock that stands still.
abbrev pub still : Connection toy
still = record {
  commit = toy_commit;
  rollback = λ s. (ok tt, s);
  time = λ s. (1000, s);
  sleep = λ t s. s;
}

abbrev pub start_state : Toy
start_state = server [] none false

-- A server that always has one message.
abbrev steady_execute : Query → Exec ℕ (List (List Value))
steady_execute q s = (ok ((null ∷ nat 7 ∷ []) ∷ []), s)

abbrev pub steady : Driver
steady = record {
  State = ℕ;
  execute = steady_execute;
  connect = λ dsn autocommit s. (ok tt, s);
  closed = λ s. false;
  close = λ s. s;
  begin = λ s. (ok tt, s);
  commit = λ s. (ok tt, s);
  rollback = λ s. s;
}

abbrev pub ticking : Connection steady
ticking = record {
  commit = λ s. (ok tt, s);
  rollback = λ s. (ok tt, s);
  time = λ s. (s, s + 1);
  sleep = λ t s. s + t;
}

abbrev pub args : Args
args = record {
  queue = "subc";
  consumer = "main";
  max_return = 5;
  expected_messages = 4;
  startup_timeout = 10000;
  idle_poll = 50;
}

abbrev pub work : ℕ → ℕ → ℕ
work n s = s + n

abbrev rates : List ℕ
rates = 4 ∷ 8 ∷ 6 ∷ []

smooth-near_example :
    (length (smooth rates 1) ≡ 3)
    × (get_elem? (smooth rates 1) 0 ≡ some (sum (near 1 0 rates), length (near 1 0 rates)))
    × (0 < length (near 1 0 rates))
smooth-near_example = smooth-near rates 1 0 (omega arith)
