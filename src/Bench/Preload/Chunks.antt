-- ===== src/Bench/Preload/Chunks.antt =====
-- The chunks of `payload_chunks` of run.py are the messages, in order.
use pg_que.Base.{
  ℕ, ◌+◌, ◌-◌, ◌≤◌, ◌<◌, min, ◌≡◌, refl, ap, String, List, [], ◌∷◌, map, ◌==◌, Bool-cases, inl, inr,
  count_from, range_by, flat, length, All, length-map, equal, not_zero,
}
use pg_que.Base.Slices.{short, length-count_from, flat-slice}
use pg_que.Value.{ℤ}
use pg_que.Exec.{Result, ok, err}
use pg_que.Bench.Preload.{payload, chunk, payload_chunks}

abbrev pub IsShort : ℕ → List String → Type 0
IsShort c texts = length texts ≤ c

chunk-IsShort : (total c start : ℕ) → IsShort c (chunk total c start)
unfolding chunk
chunk-IsShort total c start =
    let n = min (start + c) total - start in
    rw (length-map (count_from start n) payload, length-count_from start n) (short start c total)

chunks-All : (total c : ℕ) (starts : List ℕ) → All (IsShort c) (map (chunk total c) starts)
chunks-All total c [] = tt
chunks-All total c (s ∷ starts) = (chunk-IsShort total c s, chunks-All total c starts)

-- What the chunks of a number of messages are.
abbrev pub IsChunking : ℤ → ℤ → Result (List (List String)) → Type 0
IsChunking total c (err e) = c ≡ ℤ.pos 0
IsChunking (ℤ.pos total) (ℤ.pos c) (ok chunks) =
    (flat chunks ≡ map payload (count_from 0 total)) × All (IsShort c) chunks
IsChunking (ℤ.negsuc t) (ℤ.pos c) (ok chunks) = chunks ≡ []
IsChunking total (ℤ.negsuc k) (ok chunks) = flat chunks ≡ []

flat-empty : (starts : List ℕ) → flat {A = String} (map (λ start. []) starts) ≡ []
flat-empty [] = refl
flat-empty (s ∷ starts) = flat-empty starts

all_chunks :
    (total c : ℕ)
    → 0 < c
    → flat (map (chunk total c) (range_by total c)) ≡ map payload (count_from 0 total)
unfolding chunk
all_chunks total c pos = flat-slice payload total c pos

-- For every chunk size above 0, the chunks are all messages once and in order, none if there are to be
-- fewer than 0, and none is longer than the size; only a size 0 raises; and with a size below 0 no
-- chunk has a message.
pub payload_chunks-IsChunking : (total c : ℤ) → IsChunking total c (payload_chunks total c)
unfolding payload_chunks
payload_chunks-IsChunking (ℤ.pos total) (ℤ.pos c) = elim (Bool-cases (c == 0)) [
  | inl zero_size ↦ rw zero_size (ap ℤ.pos (equal c 0 zero_size))
  | inr positive ↦
      rw positive (all_chunks total c (not_zero c positive), chunks-All total c (range_by total c))
]
payload_chunks-IsChunking (ℤ.negsuc t) (ℤ.pos c) = elim (Bool-cases (c == 0)) [
  | inl zero_size ↦ rw zero_size (ap ℤ.pos (equal c 0 zero_size))
  | inr positive ↦ rw positive refl
]
payload_chunks-IsChunking (ℤ.pos total) (ℤ.negsuc k) = refl
payload_chunks-IsChunking (ℤ.negsuc t) (ℤ.negsuc k) = flat-empty (range_by (t + 1) (k + 1))
