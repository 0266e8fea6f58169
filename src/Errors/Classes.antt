-- ===== src/Errors/Classes.antt =====
-- Which class `_wrap_sql_error` of clients/python/pgque/client.py gives an error.
use Prim.Native.Char.{Char, code}
use Prim.Native.String.{◌++◌ as ◌<>◌}
use Prim.Native.String.append
use text.Mathlib.TextLemmas.{append_assoc, append_cancel_left}
use pg_que.Base.{
  ℕ, String, ◌≡◌, ◌≢◌, ◌↔◌, refl, sym, ap, ◌∙◌, Bool, true, false, Option, Option-cases, none, some,
  ◌&&◌, ◌⊎◌, inl, inr, arith, eq_iff, str_eq, Bool-cases,
}
use pg_que.Base.Texts.{show, show-injective}
use mathlib.Core.Path.{subst}
use pg_que.Errors.{DbError, Diag, PgqueError, ReceiveOverflow, receive_overflow}
use pg_que.Errors.Wrap.{
  primary_of, hint_of, overflow_text, is_receive, has_sqlstate, is_overflow, classify,
  wrap_sql_error,
}

classify-ne-overflow : (msg : String) (r : ReceiveOverflow) → classify msg ≢ receive_overflow r
unfolding classify
classify-ne-overflow msg r h = ground arith

-- The primary message of an error: its diagnostics' own, if there is one that is not empty, and
-- otherwise the text of the error.
pub data PrimaryOf (text : String) (diag : Option Diag) : String → Type 0 where
  primary :
      (d : Diag) (p : String)
      → diag ≡ some d
      → d.message_primary ≡ some p
      → p ≢ ""
      → PrimaryOf text diag p
  no_diag : diag ≡ none → PrimaryOf text diag text
  no_primary : (d : Diag) → diag ≡ some d → d.message_primary ≡ none → PrimaryOf text diag text
  empty_primary :
      (d : Diag) → diag ≡ some d → d.message_primary ≡ some "" → PrimaryOf text diag text

pub data HintOf (diag : Option Diag) : Option String → Type 0 where
  hint : (d : Diag) → diag ≡ some d → HintOf diag d.message_hint
  no_hint : diag ≡ none → HintOf diag none

-- An error that is a receive overflow of an operation at a limit, and what the overflow carries.
pub record OverflowOf (e : DbError) (operation : String) (limit : ℕ) (r : ReceiveOverflow)
    : Type 0 where
  pub is_limit : e.sqlstate ≡ some "54000"
  pub operation_known : (operation ≡ "receive") ⊎ (operation ≡ "receive_coop")
  pub says :
      PrimaryOf e.text e.diag
        (("pgque." <> operation) <> (": batch exceeds max_return of " <> show limit))
  pub message : r.message ≡ e.text
  pub sqlstate : r.sqlstate ≡ "54000"
  pub hinted : HintOf e.diag r.hint
  pub configured_limit : r.configured_limit ≡ limit
  pub operation_is : r.operation ≡ operation

primary_of-PrimaryOf : (e : DbError) → PrimaryOf e.text e.diag (primary_of e)
unfolding primary_of
primary_of-PrimaryOf e = elim (Option-cases e.diag) [
  | inl none_there ↦ rw none_there (no_diag refl)
  | inr (d, there) ↦ elim (Option-cases d.message_primary) [
    | inl without ↦ rw there (rw without (no_primary _ refl refl))
    | inr (p, with_one) ↦ elim (Bool-cases (str_eq p "")) [
      | inl empty ↦
          rw there (rw with_one (rw empty (empty_primary _ refl (ap some ((eq_iff p "").0 empty)))))
      | inr full ↦ rw there (rw with_one (rw full (primary _ p refl refl (distinct p full))))
    ]
  ]
]
  where
    distinct : (p : String) → str_eq p "" ≡ false → p ≢ ""
    distinct p h e = absurd (cc (h, (eq_iff p "").1 e))

PrimaryOf-primary_of : (e : DbError) (p : String) → PrimaryOf e.text e.diag p → primary_of e ≡ p
unfolding primary_of
PrimaryOf-primary_of e _ (primary d p there with_one full) = elim (Bool-cases (str_eq p "")) [
  | inl empty ↦ absurd (full ((eq_iff p "").0 empty))
  | inr other ↦ rw there (rw with_one (rw other refl))
]
PrimaryOf-primary_of e _ (no_diag h) = rw h refl
PrimaryOf-primary_of e _ (no_primary d there without) = rw there (rw without refl)
PrimaryOf-primary_of e _ (empty_primary d there with_one) = rw there (rw with_one refl)

hint_of-HintOf : (e : DbError) → HintOf e.diag (hint_of e)
unfolding hint_of
hint_of-HintOf e = elim (Option-cases e.diag) [
  | inl none_there ↦ rw none_there (no_hint refl)
  | inr (d, there) ↦ rw there (hint _ refl)
]

HintOf-hint_of : (e : DbError) (o : Option String) → HintOf e.diag o → hint_of e ≡ o
unfolding hint_of
HintOf-hint_of e _ (hint d there) = rw there refl
HintOf-hint_of e _ (no_hint h) = rw h refl

has_sqlstate-eq : (o : Option String) (c : String) → has_sqlstate o c ≡ true → o ≡ some c
has_sqlstate-eq none c h = absurd (cc)
has_sqlstate-eq (some s) c h = ap some ((eq_iff s c).0 h)

has_sqlstate-some : (o : Option String) (c : String) → o ≡ some c → has_sqlstate o c ≡ true
has_sqlstate-some o c h = rw h ((eq_iff c c).1 refl)

is_receive-cases : (op : String) → is_receive op ≡ true → (op ≡ "receive") ⊎ (op ≡ "receive_coop")
is_receive-cases op h = elim (Bool-cases (str_eq op "receive")) [
  | inl plain ↦ inl ((eq_iff op "receive").0 plain)
  | inr other ↦ inr ((eq_iff op "receive_coop").0 (rw other at h))
]

is_receive-true : (op : String) → (op ≡ "receive") ⊎ (op ≡ "receive_coop") → is_receive op ≡ true
is_receive-true op (inl h) = rw h refl
is_receive-true op (inr h) = rw h refl

and_parts : (a b c : Bool) → (a && (b && c)) ≡ true → (a ≡ true) × (b ≡ true) × (c ≡ true)
and_parts a b c h = ground arith

module _ (e : DbError) (operation : String) (limit : ℕ) (r : ReceiveOverflow) where
  overflow_of : ReceiveOverflow
  overflow_of = record {
    message = e.text;
    sqlstate = "54000";
    hint = hint_of e;
    configured_limit = limit;
    operation = operation;
  }

  same_overflow :
      {a b : ReceiveOverflow} → Path PgqueError (receive_overflow a) (receive_overflow b) → a ≡ b
  same_overflow h = cc

  -- With an operation and a limit given, an error of psycopg becomes a receive overflow exactly if its
  -- SQLSTATE is 54000, the operation is a receive, and the primary message of its diagnostics, or its
  -- text where that is missing or empty, is the one of the operation and the limit; and the overflow
  -- carries the text, the hint, the limit and the operation.
  pub wrap-OverflowOf :
      (wrap_sql_error e (some operation) (some limit) ≡ receive_overflow r)
      ↔ OverflowOf e operation limit r
  unfolding wrap_sql_error is_overflow overflow_text overflow_of
  wrap-OverflowOf = (to, from)
    where
      to :
          wrap_sql_error e (some operation) (some limit) ≡ receive_overflow r
          → OverflowOf e operation limit r
      to h = elim (Bool-cases (is_overflow e operation limit)) [
        | inl true_of ↦
            let (state, known, says) = and_parts _ _ _ true_of in
            let carries : overflow_of ≡ r = same_overflow (rw true_of at h) in
            record {
              is_limit = has_sqlstate-eq e.sqlstate "54000" state;
              operation_known = is_receive-cases operation known;
              says =
                  subst (PrimaryOf e.text e.diag)
                    ((eq_iff (primary_of e) (overflow_text operation limit)).0 says)
                    (primary_of-PrimaryOf e);
              message = sym (ap (λ (x : ReceiveOverflow). x.message) carries);
              sqlstate = sym (ap (λ (x : ReceiveOverflow). x.sqlstate) carries);
              hinted =
                  subst (HintOf e.diag) (ap (λ (x : ReceiveOverflow). x.hint) carries)
                    (hint_of-HintOf e);
              configured_limit = sym (ap (λ (x : ReceiveOverflow). x.configured_limit) carries);
              operation_is = sym (ap (λ (x : ReceiveOverflow). x.operation) carries);
            }
        | inr false_of ↦ absurd (classify-ne-overflow e.text r (rw false_of at h))
      ]

      from :
          OverflowOf e operation limit r
          → wrap_sql_error e (some operation) (some limit) ≡ receive_overflow r
      from o =
          let test : is_overflow e operation limit ≡ true = rw (
            has_sqlstate-some e.sqlstate "54000" o.is_limit,
            is_receive-true operation o.operation_known,
            (eq_iff (primary_of e) (overflow_text operation limit)).1
                (PrimaryOf-primary_of e _ o.says),
          ) in
          let text = sym o.message in
          let state = sym o.sqlstate in
          let limited = sym o.configured_limit in
          let hinted = HintOf-hint_of e r.hint o.hinted in
          let named = sym o.operation_is in
          rw test (λ i. receive_overflow (record {
            message = text i;
            sqlstate = state i;
            hint = hinted i;
            configured_limit = limited i;
            operation = named i;
          }))

abbrev batch_exceeds : String
batch_exceeds = ": batch exceeds max_return of "

cancel_both :
    (p : String) (m n : ℕ) → p <> (batch_exceeds <> show m) ≡ p <> (batch_exceeds <> show n) → m ≡ n
cancel_both p m n h =
    show-injective m n
      (append_cancel_left batch_exceeds (show m) (show n) (append_cancel_left p _ _ h))

plain_text-injective : (m n : ℕ) → overflow_text "receive" m ≡ overflow_text "receive" n → m ≡ n
unfolding overflow_text
plain_text-injective m n h = cancel_both "pgque.receive" m n h

coop_text-injective :
    (m n : ℕ) → overflow_text "receive_coop" m ≡ overflow_text "receive_coop" n → m ≡ n
unfolding overflow_text
coop_text-injective m n h = cancel_both "pgque.receive_coop" m n h

first_code : String → ℕ
first_code String.[] = 0
first_code (String.◌∷◌ c s) = code c

first_code-append : (c : Char) (p s : String) → first_code (String.◌∷◌ c p <> s) ≡ code c
unfolding first_code
first_code-append c p s = rw append.cons refl

texts_differ : (m n : ℕ) → overflow_text "receive" m ≢ overflow_text "receive_coop" n
unfolding overflow_text
texts_differ m n h =
    let tails : batch_exceeds <> show m ≡ "_coop" <> (batch_exceeds <> show n) =
      append_cancel_left "pgque.receive" _ _
        (h ∙ append_assoc "pgque.receive" "_coop" (batch_exceeds <> show n)) in
    let heads : ◌≡◌ {A = ℕ} 58 95 =
      sym (first_code-append ":" " batch exceeds max_return of " (show m))
      ∙ ap first_code tails
      ∙ first_code-append "_" "coop" (batch_exceeds <> show n) in
    absurd (omega arith)

-- The text of an overflow names its operation and its limit: no other pair has that text.
pub overflow_text-injective :
    (a b : String) (m n : ℕ)
    → is_receive a ≡ true
    → is_receive b ≡ true
    → overflow_text a m ≡ overflow_text b n
    → (a ≡ b) × (m ≡ n)
overflow_text-injective a b m n ha hb h = split (is_receive-cases a ha) (is_receive-cases b hb)
  where
    split :
        (a ≡ "receive") ⊎ (a ≡ "receive_coop")
        → (b ≡ "receive") ⊎ (b ≡ "receive_coop")
        → (a ≡ b) × (m ≡ n)
    split (inl p) (inl q) = (p ∙ sym q, plain_text-injective m n (rw (p, q) at h))
    split (inr p) (inr q) = (p ∙ sym q, coop_text-injective m n (rw (p, q) at h))
    split (inl p) (inr q) = absurd (texts_differ m n (rw (p, q) at h))
    split (inr p) (inl q) = absurd (texts_differ n m (sym (rw (p, q) at h)))
