-- ===== src/Server/Steps/Rows.antt =====
-- How many rows a condition selects, after an update and among a selection.
use pg_que.Base.{
  ◌||◌, ◌≤◌, ◌≡◌, refl, Bool, true, false, List, [], ◌∷◌, length, All, Bool-cases, inl, inr,
  if◌then◌else◌, arith,
}
use pg_que.Base.Selections.{select}
use pg_que.Server.Tables.{update, exists}

module _ {A : Type 0} where
  -- One more row on the right, if there is one more on the left.
  one_more :
      (a b : Bool) (x y : A) (xs ys : List A)
      → (a ≡ true → b ≡ true)
      → length xs ≤ length ys
      → length (if a then x ∷ xs else xs) ≤ length (if b then y ∷ ys else ys)
  one_more true true x y xs ys h k = omega (arith, k)
  one_more true false x y xs ys h k = absurd (cc (h refl))
  one_more false true x y xs ys h k = omega (arith, k)
  one_more false false x y xs ys h k = k

  pub length-select :
      (p q : A → Bool) (xs : List A)
      → ((x : A) → p x ≡ true → q x ≡ true)
      → length (select p xs) ≤ length (select q xs)
  unfolding select
  length-select p q [] h = omega arith
  length-select p q (x ∷ xs) h = one_more (p x) (q x) x x _ _ (h x) (length-select p q xs h)

  -- After an update `f` of the rows with `g`.
  pub length-select-update :
      (p q g : A → Bool) (f : A → A) (xs : List A)
      → All
          (λ x.
            (g x ≡ true → p (f x) ≡ true → q x ≡ true) × (g x ≡ false → p x ≡ true → q x ≡ true))
          xs
      → length (select p (update g f xs)) ≤ length (select q xs)
  unfolding select
  length-select-update p q g f [] h = omega arith
  length-select-update p q g f (x ∷ xs) ((h, k), hs) =
      let rest = length-select-update p q g f xs hs in
      elim (Bool-cases (g x)) [
        | inl hit ↦ rw hit (one_more (p (f x)) (q x) (f x) x _ _ (h hit) rest)
        | inr miss ↦ rw miss (one_more (p x) (q x) x x _ _ (k miss) rest)
      ]

  pub none_selected : (p : A → Bool) (xs : List A) → exists p xs ≡ false → length (select p xs) ≡ 0
  unfolding select
  none_selected p [] h = refl
  none_selected p (x ∷ xs) h =
      let (this, others) = neither (p x) (exists p xs) h in rw this (none_selected p xs others)
    where
      neither : (a b : Bool) → (a || b) ≡ false → (a ≡ false) × (b ≡ false)
      neither a b e = ground arith

  pub All-update :
      (P : A → Type 0) (g : A → Bool) (f : A → A) (xs : List A)
      → ((x : A) → P x → P (f x))
      → All P xs
      → All P (update g f xs)
  All-update P g f [] h k = tt
  All-update P g f (x ∷ xs) h (k, ks) = elim (Bool-cases (g x)) [
    | inl hit ↦ rw hit (h x k, All-update P g f xs h ks)
    | inr miss ↦ rw miss (k, All-update P g f xs h ks)
  ]

  pub All-map : (P Q : A → Type 0) (xs : List A) → ((x : A) → P x → Q x) → All P xs → All Q xs
  All-map P Q [] f h = tt
  All-map P Q (x ∷ xs) f (h, hs) = (f x h, All-map P Q xs f hs)

  pub All_each : (P : A → Type 0) (xs : List A) → ((x : A) → P x) → All P xs
  All_each P [] f = tt
  All_each P (x ∷ xs) f = (f x, All_each P xs f)

  pub All-select : (P : A → Type 0) (g : A → Bool) (xs : List A) → All P xs → All P (select g xs)
  unfolding select
  All-select P g [] h = tt
  All-select P g (x ∷ xs) (h, hs) = elim (Bool-cases (g x)) [
    | inl hit ↦ rw hit (h, All-select P g xs hs)
    | inr miss ↦ rw miss (All-select P g xs hs)
  ]

  -- Of a selection, no more rows are selected.
  pub length-select-select :
      (p g : A → Bool) (xs : List A) → length (select p (select g xs)) ≤ length (select p xs)
  unfolding select
  length-select-select p g [] = omega arith
  length-select-select p g (x ∷ xs) = elim (Bool-cases (g x)) [
    | inl hit ↦ rw hit (one_more (p x) (p x) x x _ _ (λ h. h) (length-select-select p g xs))
    | inr miss ↦ rw miss (one_more false (p x) x x _ _ (cc) (length-select-select p g xs))
  ]
