-- ===== src/Base/Slices.antt =====
-- The slices of a range, each of which a loop of the programs takes at once.
use native.Mathlib.Nat.{lt-div-mul-add, add-mul, suc-mul}
use pg_que.Base.{
  ℕ, zero, suc, ◌+◌, ◌-◌, ◌*◌, ◌/◌, ◌≤◌, ◌<◌, min, ◌≡◌, ◌⊎◌, refl, sym, ◌∙◌, ap, List, [], ◌∷◌,
  ◌++◌, map, inl, inr, arith, count_from, range_by, flat, length, sum, length-append, length-map,
}

-- From `start` on, at most `c` of the numbers below `total`.
abbrev pub slice {ℓ} : {A : Type ℓ} → (ℕ → A) → ℕ → ℕ → ℕ → List A
slice f total c start = map f (count_from start (min (start + c) total - start))

zero_right : (i : ℕ) → i ≡ i + 0
zero_right i = omega arith

zero_front : (n : ℕ) → 0 + n ≡ n
zero_front n = omega arith

suc_front : (m n : ℕ) → suc m + n ≡ suc (m + n)
suc_front m n = omega arith

suc_over : (i m : ℕ) → suc i + m ≡ i + suc m
suc_over i m = omega arith

le_total : (a b : ℕ) → (a ≤ b) ⊎ (b ≤ a)
le_total a b = ground arith

whole_chunk : (s c t : ℕ) → s + c ≤ t → min (s + c) t - s ≡ c
whole_chunk s c t h = omega arith

rest_after : (s c e t : ℕ) → s + c ≤ e → s + c ≤ t → min t e - s ≡ c + (min t e - (s + c))
rest_after s c e t h k = omega arith

nothing_after : (s c e t : ℕ) → t ≤ s + c → min t e - (s + c) ≡ 0
nothing_after s c e t h = omega arith

last_chunk : (s c e t : ℕ) → s + c ≤ e → t ≤ s + c → min (s + c) t - s ≡ min t e - s
last_chunk s c e t h k = omega arith

below : (t a : ℕ) → min t a - a ≡ 0
below t a = omega arith

no_chunk : (t c i : ℕ) → min t ((i + 0) * c) - i * c ≡ 0
no_chunk t c i = rw (sym (zero_right i)) (below t (i * c))

end_of_block : (i k c : ℕ) → i * c + c ≤ (i + suc k) * c
end_of_block i k c = omega (arith, add-mul (suc i) k c, suc-mul i c, ap (λ j. j * c) (suc_over i k))

append_nil : (xs : List ℕ) → xs ++ [] ≡ xs
append_nil [] = refl
append_nil (x ∷ xs) = ap (λ ys. x ∷ ys) (append_nil xs)

count_from-add : (i m n : ℕ) → count_from i (m + n) ≡ count_from i m ++ count_from (i + m) n
count_from-add i zero n = rw (zero_front n, sym (zero_right i)) refl
count_from-add i (suc m) n = rw (suc_front m n) (
    ap (λ js. i ∷ js)
      (count_from-add (suc i) m n
        ∙ ap (λ j. count_from (suc i) m ++ count_from j n) (suc_over i m)))

map-append {ℓ} : {A : Type ℓ} (f : ℕ → A) (xs ys : List ℕ) → map f (xs ++ ys) ≡ map f xs ++ map f ys
map-append f [] ys = refl
map-append f (x ∷ xs) ys = ap (λ zs. f x ∷ zs) (map-append f xs ys)

pub length-count_from : (i n : ℕ) → length (count_from i n) ≡ n
length-count_from i zero = refl
length-count_from i (suc n) = ap suc (length-count_from (suc i) n)

-- A chunk and what comes after it, up to the end `e`.
join :
    (s c e total : ℕ)
    → s + c ≤ e
    → count_from s (min (s + c) total - s) ++ count_from (s + c) (min total e - (s + c))
      ≡ count_from s (min total e - s)
join s c e total h = elim (le_total (s + c) total) [
  | inl whole ↦
      rw (whole_chunk s c total whole, rest_after s c e total h whole)
        (sym (count_from-add s c (min total e - (s + c))))
  | inr part ↦
      rw (nothing_after s c e total part, last_chunk s c e total h part)
        (append_nil (count_from s (min total e - s)))
]

blocks {ℓ} :
    {A : Type ℓ} (f : ℕ → A) (total c i k : ℕ)
    → flat (map (slice f total c) (map (λ j. j * c) (count_from i k)))
      ≡ map f (count_from (i * c) (min total ((i + k) * c) - i * c))
blocks f total c i zero = ap (λ n. map f (count_from (i * c) n)) (sym (no_chunk total c i))
blocks f total c i (suc k) =
    ap (λ ys. map f (count_from (i * c) (min (i * c + c) total - i * c)) ++ ys)
      (blocks f total c (suc i) k)
    ∙ rw (suc-mul i c, suc_over i k)
        (sym (map-append f (count_from (i * c) (min (i * c + c) total - i * c)) _)
          ∙ ap (map f) (join (i * c) c ((i + suc k) * c) total (end_of_block i k c)))

pub short : (s c t : ℕ) → min (s + c) t - s ≤ c
short s c t = omega arith

zero_times : (c : ℕ) → 0 * c ≡ 0
zero_times c = omega arith

above : (a c : ℕ) → 0 < c → a < a / c * c + c
above a c pos = lt-div-mul-add pos

enough_chunks : (t c k : ℕ) → 0 < c → k ≡ (t + c - 1) / c → min t (k * c) - 0 ≡ t
enough_chunks t c k pos e = omega (arith, above (t + c - 1) c pos, ap (λ j. j * c) e)

-- The slices are the whole range, once and in order.
pub flat-slice {ℓ} :
    {A : Type ℓ} (f : ℕ → A) (total c : ℕ)
    → 0 < c
    → flat (map (slice f total c) (range_by total c)) ≡ map f (count_from 0 total)
flat-slice f total c pos =
    let k = (total + c - 1) / c in
    blocks f total c 0 k
    ∙ ap (map f) (
        rw (zero_times c, zero_front k)
          (ap (λ n. count_from 0 n) (enough_chunks total c k pos refl)))

lengths {ℓ} : {A : Type ℓ} (xss : List (List A)) → length (flat xss) ≡ sum (map length xss)
lengths [] = refl
lengths (xs ∷ xss) = omega (arith, length-append xs (flat xss), lengths xss)

slice_sizes :
    (total c : ℕ) (starts : List ℕ)
    → sum (map length (map (slice (λ i. i) total c) starts))
      ≡ sum (map (λ start. min c (total - start)) starts)
slice_sizes total c [] = refl
slice_sizes total c (s ∷ starts) = omega (
  arith,
  length-map (count_from s (min (s + c) total - s)) (λ i. i),
  length-count_from s (min (s + c) total - s),
  slice_sizes total c starts,
)

-- The sizes of the slices add up to the size of the range.
pub sum-slice :
    (total c : ℕ) → 0 < c → sum (map (λ start. min c (total - start)) (range_by total c)) ≡ total
sum-slice total c pos =
    sym (slice_sizes total c (range_by total c))
    ∙ (sym (lengths (map (slice (λ i. i) total c) (range_by total c)))
        ∙ (ap length (flat-slice (λ i. i) total c pos)
            ∙ (length-map (count_from 0 total) (λ i. i) ∙ length-count_from 0 total)))
