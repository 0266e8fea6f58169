-- ===== src/Bench/CoopDemo/Counted.antt =====
-- The counts of the two workers of coop_demo.py, whose handlers run in any interleaving: the lock
-- makes each count one step.
use pg_que.Base.{
  ℕ, suc, ◌+◌, ◌≡◌, ap, String, List, [], ◌∷◌, str_eq, eq_iff, length, ◌==◌, if◌then◌else◌, arith,
}
use pg_que.Bench.CoopDemo.{count_of, on_event, total, exit_code}

-- The handlers of the messages one after the other, each by the worker that runs it.
abbrev pub handle_all : List String → List (String × ℕ) → List (String × ℕ)
handle_all [] counts = counts
handle_all (worker ∷ workers) counts = handle_all workers (on_event worker counts)

abbrev pub occurrences : String → List String → ℕ
occurrences worker [] = 0
occurrences worker (w ∷ ws) = (if str_eq w worker then 1 else 0) + occurrences worker ws

total-on_event :
    (w : String) (counts : List (String × ℕ)) → total (on_event w counts) ≡ suc (total counts)
unfolding on_event
total-on_event w [] = omega arith
total-on_event w ((v, n) ∷ counts) = ground (arith, total-on_event w counts)

total-handle_all :
    (ws : List String) (counts : List (String × ℕ))
    → total (handle_all ws counts) ≡ length ws + total counts
total-handle_all [] counts = omega arith
total-handle_all (w ∷ ws) counts =
    omega (arith, total-handle_all ws (on_event w counts), total-on_event w counts)

count_of-on_event :
    (w v : String) (counts : List (String × ℕ))
    → count_of w (on_event v counts) ≡ (if str_eq v w then 1 else 0) + count_of w counts
unfolding on_event
count_of-on_event w v [] = ground arith
count_of-on_event w v ((u, n) ∷ counts) =
    ground (arith, eq_iff u v, eq_iff u w, eq_iff v w, count_of-on_event w v counts)

count_of-handle_all :
    (w : String) (ws : List String) (counts : List (String × ℕ))
    → count_of w (handle_all ws counts) ≡ occurrences w ws + count_of w counts
count_of-handle_all w [] counts = omega arith
count_of-handle_all w (v ∷ ws) counts =
    omega (arith, count_of-handle_all w ws (on_event v counts), count_of-on_event w v counts)

all_handled : (ws : List String) → total (handle_all ws []) ≡ length ws
all_handled ws = omega (arith, total-handle_all ws [])

-- Whatever the order in which the workers handle messages, each has counted its own, and the demo
-- ends with exit code 0 exactly if as many messages were handled as there are events.
pub on_event_counts :
    (ws : List String) (n_events : ℕ)
    → ((w : String) → count_of w (handle_all ws []) ≡ occurrences w ws)
      × (exit_code (handle_all ws []) n_events ≡ (if length ws == n_events then 0 else 2))
unfolding exit_code
on_event_counts ws n_events = (
  λ w. grind (arith, count_of-handle_all w ws []),
  ap (λ t. if t == n_events then 0 else 2) (all_handled ws),
)
