-- ===== src/Examples/Computed.antt =====
-- What the programs of the benchmarks compute at small arguments.
use pg_que.Base.{ℕ, ◌≡◌, refl, [], ◌∷◌, some}
use pg_que.Base.Texts.{codes}
use pg_que.Bench.Events.{
  literal, skip_spaces, spaces, read_digits, number, notice_here, notice, parse_notice_log, digits,
  skip_fraction, first_ts, first_some, find_t0_from_producer,
}
use pg_que.Bench.Sessions.{
  io, other, left_strip, right_strip, same_codes, before_colon, category_of_prefix, cat_of,
}
use pg_que.Bench.Charts.{
  clip_loop, up_to_now, clip_series, insert, sort, spread_from, spread, place_labels,
}
use pg_que.Examples.Benches.{log, producer_files}

parsed_log : parse_notice_log log ≡ (1700000003, 5) ∷ (1700000005, 12) ∷ []
unfolding parse_notice_log notice notice_here literal spaces skip_spaces number read_digits
parsed_log = refl

found_start : find_t0_from_producer producer_files ≡ some 1700000000
unfolding find_t0_from_producer first_some first_ts digits skip_fraction spaces skip_spaces number
    read_digits
found_start = refl

io_wait : cat_of (codes " IO:DataFileRead") ≡ io
unfolding cat_of left_strip right_strip same_codes before_colon category_of_prefix
io_wait = refl

timeout_wait : cat_of (codes "Timeout:PgSleep") ≡ other
unfolding cat_of left_strip right_strip same_codes before_colon category_of_prefix
timeout_wait = refl

clipped : clip_series ((0, 9) ∷ (2, 7) ∷ (5, 1) ∷ []) 3 ≡ (0, 9) ∷ (2, 7) ∷ (3, 7) ∷ []
unfolding clip_series clip_loop up_to_now
clipped = refl

placed : place_labels {A = ℕ} 6 ((40, 1) ∷ (3, 8) ∷ (5, 4) ∷ []) ≡ (3, 8) ∷ (9, 4) ∷ (40, 1) ∷ []
unfolding place_labels sort insert spread spread_from
placed = refl
