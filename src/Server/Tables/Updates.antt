-- ===== src/Server/Tables/Updates.antt =====
-- Look-ups after an update.
use pg_que.Base.{
  ℕ, ◌==◌, suc, ◌≤◌, ◌≡◌, refl, sym, ap, ◌∙◌, Bool, true, false, some, List, [], ◌∷◌, length, All,
  Bool-cases, inl, inr, if◌then◌else◌, arith,
}
use pg_que.Base.Selections.{select}
use pg_que.Server.Tables.{find, update, put}

pub put_self : {A : Type 0} (queue : ℕ) (a : A) (f : ℕ → A) → put queue a f queue ≡ a
put_self queue a f = rw (self queue) refl
  where
    self : (n : ℕ) → (n == n) ≡ true
    self n = ground arith

module _ {A : Type 0} where
  -- The row that is found at the head, or further on.
  pub here : (p : A → Bool) (x s : A) (xs : List A) → find p (x ∷ xs) ≡ some s → p x ≡ true → x ≡ s
  here p x s xs h e = let k : some x ≡ some s = sym (rw (e, find) refl) ∙ h in cc

  pub there :
      (p : A → Bool) (x s : A) (xs : List A)
      → find p (x ∷ xs) ≡ some s
      → p x ≡ false
      → find p xs ≡ some s
  there p x s xs h e = sym (rw (e, find) refl) ∙ h

  pub find_holds : (p : A → Bool) (xs : List A) (s : A) → find p xs ≡ some s → p s ≡ true
  find_holds p [] s h = absurd (cc)
  find_holds p (x ∷ xs) s h = elim (Bool-cases (p x)) [
    | inl yes_it_is ↦ ap p (sym (here p x s xs h yes_it_is)) ∙ yes_it_is
    | inr no_it_is_not ↦ find_holds p xs s (there p x s xs h no_it_is_not)
  ]

  module _ (p g : A → Bool) (f : A → A) where
    -- An update that does not touch what is looked for, row by row.
    update_row :
        (x : A) (xs : List A)
        → p (f x) ≡ p x
        → find p (update g f (x ∷ xs))
          ≡ (if p x then some (if g x then f x else x) else find p (update g f xs))
    update_row x xs same = elim (Bool-cases (g x)) [
      | inl hit ↦ rw hit (rw same refl)
      | inr miss ↦ rw miss refl
    ]

    pub find-update :
        (xs : List A) (s : A)
        → ((x : A) → p (f x) ≡ p x)
        → find p xs ≡ some s
        → find p (update g f xs) ≡ some (if g s then f s else s)
    find-update [] s same h = absurd (cc)
    find-update (x ∷ xs) s same h = elim (Bool-cases (p x)) [
      | inl yes_it_is ↦
          update_row x xs (same x)
          ∙ rw yes_it_is (ap (λ y. some (if g y then f y else y)) (here p x s xs h yes_it_is))
      | inr no_it_is_not ↦
          update_row x xs (same x)
          ∙ rw no_it_is_not (find-update xs s same (there p x s xs h no_it_is_not))
    ]

    -- What the update makes of the first row, where no row was that before.
    pub find_updated :
        (xs : List A) (s : A)
        → ((x : A) → p (f x) ≡ true)
        → All (λ x. p x ≡ false) xs
        → find g xs ≡ some s
        → find p (update g f xs) ≡ some (f s)
    find_updated [] s all new h = absurd (cc)
    find_updated (x ∷ xs) s all (n, new) h = elim (Bool-cases (g x)) [
      | inl hit ↦ rw (hit) (rw (all x) (ap (λ y. some (f y)) (here g x s xs h hit)))
      | inr miss ↦ rw miss (rw n (find_updated xs s all new (there g x s xs h miss)))
    ]

  -- A stricter condition finds the same row, if it holds of it.
  pub find_stricter :
      (p g : A → Bool) (xs : List A) (s : A)
      → ((x : A) → g x ≡ true → p x ≡ true)
      → find p xs ≡ some s
      → g s ≡ true
      → find g xs ≡ some s
  find_stricter p g [] s stricter h k = absurd (cc)
  find_stricter p g (x ∷ xs) s stricter h k = elim (Bool-cases (p x)) [
    | inl yes_it_is ↦ let same = here p x s xs h yes_it_is in rw (ap g same ∙ k) (ap some same)
    | inr no_it_is_not ↦
        rw (other x (stricter x) no_it_is_not)
          (find_stricter p g xs s stricter (there p x s xs h no_it_is_not) k)
  ]
    where
      other : (x : A) → (g x ≡ true → p x ≡ true) → p x ≡ false → g x ≡ false
      other x h k = elim (Bool-cases (g x)) [ inl hit ↦ absurd (cc (h hit)) | inr miss ↦ miss ]

  pub one_left :
      (p g : A → Bool) (xs : List A) (s : A)
      → find p xs ≡ some s
      → g s ≡ true
      → 1 ≤ length (select g xs)
  unfolding select
  one_left p g [] s h k = absurd (cc)
  one_left p g (x ∷ xs) s h k = elim (Bool-cases (g x)) [
    | inl hit ↦ rw hit (omega arith)
    | inr miss ↦ elim (Bool-cases (p x)) [
      | inl yes_it_is ↦ absurd (cc (ap g (here p x s xs h yes_it_is) ∙ k))
      | inr no_it_is_not ↦ rw miss (one_left p g xs s (there p x s xs h no_it_is_not) k)
    ]
  ]

  -- So does any condition that holds of it, if it holds of one row at most.
  pub find_only :
      (p g : A → Bool) (xs : List A) (s : A)
      → find p xs ≡ some s
      → g s ≡ true
      → length (select g xs) ≤ 1
      → find g xs ≡ some s
  unfolding select
  find_only p g [] s h k one = absurd (cc)
  find_only p g (x ∷ xs) s h k one = elim (Bool-cases (p x)) [
    | inl yes_it_is ↦ let same = here p x s xs h yes_it_is in rw (ap g same ∙ k) (ap some same)
    | inr no_it_is_not ↦
        let rest = there p x s xs h no_it_is_not in
        elim (Bool-cases (g x)) [
          | inl hit ↦
              let two : suc (length (select g xs)) ≤ 1 = rw (hit, select) at one in
              absurd (omega (arith, two, one_left p g xs s rest k))
          | inr miss ↦ rw miss (find_only p g xs s rest k (rw (miss, select) at one))
        ]
  ]
