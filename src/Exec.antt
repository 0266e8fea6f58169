-- ===== src/Exec.antt =====
-- Code that changes a state and may raise: what was changed before a raise stays changed.
use pg_que.Base.{Bool, true, false, ◌≡◌, refl}
use pg_que.Errors.{Exn}

pub data Result {ℓ} (A : Type ℓ) : Type ℓ where
  ok : A → Result A
  err : Exn → Result A

abbrev pub Exec {ℓ} : Type ℓ → Type ℓ → Type ℓ
Exec S A = S → Result A × S

module _ {ℓ} {S A : Type ℓ} where
  abbrev pub pure : A → Exec S A
  pure a s = (ok a, s)

  abbrev pub raise : Exn → Exec S A
  raise e s = (err e, s)

  abbrev pub lift : Result A → Exec S A
  lift r s = (r, s)

module _ {ℓ} {S A B : Type ℓ} where
  -- What follows a call that has returned, or raised, in a state.
  abbrev pub follow : (A → Exec S B) → Result A → S → Result B × S
  follow f (ok a) s = f a s
  follow f (err e) s = (err e, s)

  infixl 5 ◌>>=◌ ◌>>◌
  abbrev pub ◌>>=◌ : Exec S A → (A → Exec S B) → Exec S B
  ◌>>=◌ m f s = let (r, s') = m s in follow f r s'

  abbrev pub ◌>>◌ : Exec S A → Exec S B → Exec S B
  m >> n = m >>= λ _. n

module _ {ℓ} {S A : Type ℓ} where
  abbrev pub handled : (Exn → Exec S A) → Result A → S → Result A × S
  handled h (ok a) s = (ok a, s)
  handled h (err e) s = h e s

  -- `try: m except Exception as e: h e`, where `h` raises again what it does not catch.
  abbrev pub catching : Exec S A → (Exn → Exec S A) → Exec S A
  catching m h s = let (r, s') = m s in handled h r s'

abbrev pub is_ok {ℓ} : {A : Type ℓ} → Result A → Bool
is_ok (ok a) = true
is_ok (err e) = false

-- What holds of every raise and of what follows a call holds of the call with what follows it.
pub after {ℓ κ} :
    {S A B : Type ℓ} (P : Result B → Type κ) (f : A → Exec S B) (r : Result A) (s : S)
    → ((e : Exn) → P (err e))
    → ((a : A) (s' : S) → P (f a s').0)
    → P (follow f r s).0
after P f (ok a) s raised returned = returned a s
after P f (err e) s raised returned = raised e

-- What a call came to that was followed by another, when both return.
pub follow_ok {ℓ} :
    {S A B : Type ℓ} (f : A → Exec S B) (r : Result A) (s : S) (b : B) (s' : S)
    → follow f r s ≡ (ok b, s')
    → (a : A) × (r ≡ ok a) × (f a s ≡ (ok b, s'))
follow_ok f (ok a) s b s' h = (a, refl, h)
follow_ok f (err e) s b s' h = absurd (cc)
