-- ===== src/Base/Texts.antt =====
-- What the program uses of Python's `str`: `lower`, `in`, and `int` in an f-string.
use Prim.Native.Nat.{ℕ, zero, suc, ◌+◌, ◌-◌, ◌*◌, ◌/◌, ◌%◌, ◌<◌}
use Prim.Native.Char.{Char, code}
use Prim.Native.String.{String}
use mathlib.Core.Path.{◌≡◌, refl, ap, sym, ◌∙◌}
use mathlib.Core.Bool.{Bool, true, false, ◌&&◌, ◌||◌}
use mathlib.Core.List.{List, [], ◌∷◌, map}
use native.Mathlib.Omega.{arith}
use pg_que.Base.Tests.{ltb, leb, ◌==◌, if◌then◌else◌}

-- The code points of a text.
abbrev pub codes : String → List ℕ
codes String.[] = []
codes (String.◌∷◌ c s) = code c ∷ codes s

-- `str.lower` on the letters of ASCII. Other characters stay: none of them lowers to a letter that
-- stands in a phrase that the program looks for, at a place where the phrase could match.
unfoldable pub lower_code : ℕ → ℕ
lower_code c = if leb b'A' c && leb c b'Z' then c + 32 else c

unfoldable pub lower : List ℕ → List ℕ
lower = map lower_code

unfoldable pub starts : List ℕ → List ℕ → Bool
starts [] s = true
starts (p ∷ ps) [] = false
starts (p ∷ ps) (c ∷ s) = p == c && starts ps s

-- `phrase in text`
unfoldable pub contains : List ℕ → List ℕ → Bool
unfolding starts
contains phrase [] = starts phrase []
contains phrase (c ∷ s) = starts phrase (c ∷ s) || contains phrase s

abbrev pub digit_char : ℕ → Char
digit_char zero = "0"
digit_char (suc zero) = "1"
digit_char (suc (suc zero)) = "2"
digit_char (suc (suc (suc zero))) = "3"
digit_char (suc (suc (suc (suc zero)))) = "4"
digit_char (suc (suc (suc (suc (suc zero))))) = "5"
digit_char (suc (suc (suc (suc (suc (suc zero)))))) = "6"
digit_char (suc (suc (suc (suc (suc (suc (suc zero))))))) = "7"
digit_char (suc (suc (suc (suc (suc (suc (suc (suc zero)))))))) = "8"
digit_char _ = "9"

-- The decimal digits of `n`, in front of `acc`.
show_onto : ℕ → ℕ → String → String
show_onto zero n acc = acc
show_onto (suc f) n acc =
    let rest = show_onto f (n / 10) (String.◌∷◌ (digit_char (n % 10)) acc) in
    if ltb n 10 then String.◌∷◌ (digit_char n) acc else rest

-- `str(n)`
unfoldable pub show : ℕ → String
unfolding show_onto
show n = show_onto (suc n) n ""

-- The number that a text of digits stands for, read on from `a`.
read_on : ℕ → String → ℕ
read_on a String.[] = a
read_on a (String.◌∷◌ c s) = read_on (a * 10 + (code c - 48)) s

digit_value : (d : ℕ) → d < 10 → code (digit_char d) - 48 ≡ d
digit_value zero h = refl
digit_value (suc zero) h = refl
digit_value (suc (suc zero)) h = refl
digit_value (suc (suc (suc zero))) h = refl
digit_value (suc (suc (suc (suc zero)))) h = refl
digit_value (suc (suc (suc (suc (suc zero))))) h = refl
digit_value (suc (suc (suc (suc (suc (suc zero)))))) h = refl
digit_value (suc (suc (suc (suc (suc (suc (suc zero))))))) h = refl
digit_value (suc (suc (suc (suc (suc (suc (suc (suc zero)))))))) h = refl
digit_value (suc (suc (suc (suc (suc (suc (suc (suc (suc zero))))))))) h = refl
digit_value (suc (suc (suc (suc (suc (suc (suc (suc (suc (suc n)))))))))) h = absurd (omega arith)

read_on-cons_digit :
    (a d : ℕ) (acc : String)
    → d < 10
    → read_on a (String.◌∷◌ (digit_char d) acc) ≡ read_on (a * 10 + d) acc
unfolding read_on
read_on-cons_digit a d acc h = ap (λ (v : ℕ). read_on (a * 10 + v) acc) (digit_value d h)

read_on-show_onto : (f n : ℕ) (acc : String) → n < f → read_on 0 (show_onto f n acc) ≡ read_on n acc
unfolding show_onto
read_on-show_onto zero n acc h = absurd (omega arith)
read_on-show_onto (suc f) n acc h = ground (
  arith,
  read_on-cons_digit 0 n acc,
  read_on-show_onto f (n / 10) (String.◌∷◌ (digit_char (n % 10)) acc),
  read_on-cons_digit (n / 10) (n % 10) acc,
)

-- A number can be read back from its decimal text.
read-show : (n : ℕ) → read_on 0 (show n) ≡ n
unfolding show read_on
read-show n = read_on-show_onto (suc n) n "" (omega arith)

-- Two numbers with one decimal text are equal.
pub show-injective : (m n : ℕ) → show m ≡ show n → m ≡ n
show-injective m n h = sym (read-show m) ∙ ap (read_on 0) h ∙ read-show n
