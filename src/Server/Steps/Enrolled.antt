-- ===== src/Server/Steps/Enrolled.antt =====
-- Registrations keep the tables of sql/pgque.sql valid.
use mathlib.Core.Path.{ap₂}
use pg_que.Base.{
  ℕ, ◌+◌, ◌≤◌, ◌≡◌, refl, sym, ◌∙◌, str_eq, String, Bool, true, false, Option, none, some, List,
  ◌∷◌, length, ◌==◌, ◌&&◌, arith, Bool-cases, Option-cases, inl, inr, equal,
}
use pg_que.Base.Selections.{select}
use pg_que.Server.Tables.{Db, Subscription, Role, Retry, exists, find}
use pg_que.Server.Registration.{
  is_row, new_row, register, repositioned, reposition, register_row, consumer_of,
  register_consumer_at, unregister_consumer, unregister_main, unregister_member, drop_consumer,
  demote, delete, has_id,
}
use pg_que.Server.Ticks.{queue_named}
use pg_que.Server.Nack.{is_retry}
use pg_que.Server.Steps.Rows.{none_selected, length-select-select}
use pg_que.Server.Steps.Valid.{
  IsValid, AreOwnRetries, others-IsValid, retries-IsValid, either-IsValid,
}
use pg_que.Server.Steps.Subscribed.{
  IsValid-AreSubscriptions, AreSubscriptions-IsValid, updated-IsValid, select-AreSubscriptions,
}

-- A row more, for a consumer that has none.
one_row :
    (queue consumer q c : ℕ) (s : Subscription) (xs : List Subscription)
    → s.sub_queue ≡ q
    → s.sub_consumer ≡ c
    → length (select (is_row q c) xs) ≡ 0
    → length (select (is_row queue consumer) xs) ≤ 1
    → length (select (is_row queue consumer) (s ∷ xs)) ≤ 1
unfolding select
one_row queue consumer q c s xs e k fresh h = elim (Bool-cases (is_row queue consumer s)) [
  | inl same ↦
      let (one, other) = both (s.sub_queue == queue) (s.sub_consumer == consumer) same in
      let to_queue : q ≡ queue = sym e ∙ equal s.sub_queue queue one in
      let to_consumer : c ≡ consumer = sym k ∙ equal s.sub_consumer consumer other in
      rw same
        (omega (arith, fresh, ap₂ (λ x y. length (select (is_row x y) xs)) to_queue to_consumer))
  | inr other ↦ rw other h
]
  where
    both : (a b : Bool) → (a && b) ≡ true → (a ≡ true) × (b ≡ true)
    both a b e = ground arith

module _ {base : Db} (db : Db) (v : IsValid base db) where
  consumer_of-IsValid : (consumer : String) → IsValid base (consumer_of consumer db).1
  unfolding consumer_of
  consumer_of-IsValid consumer =
      elim (Option-cases (find (λ c. str_eq c.co_name consumer) db.consumers)) [
        | inl new ↦ rw (new, consumer_of) (others-IsValid db v _ _ _ _ _ _)
        | inr (c, there) ↦ rw (there, consumer_of) v
      ]

  register-IsValid :
      (queue consumer tick : ℕ)
      → exists (is_row queue consumer) db.subscriptions ≡ false
      → IsValid base (register queue consumer tick db)
  unfolding register select
  register-IsValid queue consumer tick fresh =
      let w : IsValid base (record db { sub_id_seq = db.sub_id_seq + 1 }) =
        others-IsValid db v _ _ _ _ _ _ in
      AreSubscriptions-IsValid _ db.batch_id_seq _ w (record {
        drawn = ((λ b e. absurd (cc e)), v.drawn);
        own_batch = v.own_batch;
        own_row = λ q c.
            one_row q c queue consumer (new_row queue consumer tick db) db.subscriptions refl refl
              (none_selected (is_row queue consumer) db.subscriptions fresh) (v.own_row q c);
      })

  reposition-IsValid :
      (queue consumer : ℕ) (tick : Option ℕ) → IsValid base (reposition queue consumer tick db)
  unfolding reposition
  reposition-IsValid queue consumer none = v
  reposition-IsValid queue consumer (some tick) =
      updated-IsValid db v (is_row queue consumer) (repositioned db.now tick) (record {
        same_queue = λ x. refl;
        same_consumer = λ x. refl;
        no_batch = λ x b e. absurd (cc e);
      })

  register_row-IsValid :
      (queue consumer : ℕ) (tick_pos : Option ℕ)
      → IsValid base (register_row queue consumer tick_pos db).1
  unfolding register_row
  register_row-IsValid queue consumer tick_pos =
      grind (arith, v, reposition-IsValid, register-IsValid)

pub register_consumer_at-IsValid :
    {base : Db} (db : Db) (v : IsValid base db) (queue consumer : String) (tick_pos : Option ℕ)
    → IsValid base (register_consumer_at queue consumer tick_pos db).1
unfolding register_consumer_at
register_consumer_at-IsValid db v queue consumer tick_pos =
    elim (Option-cases (queue_named db queue)) [
      | inl none_there ↦ rw (none_there, register_consumer_at) v
      | inr (q, there) ↦
          rw (there, register_consumer_at)
            (register_row-IsValid (consumer_of consumer db).1 (consumer_of-IsValid db v consumer)
              q.queue_id (consumer_of consumer db).0 tick_pos)
    ]

pub own_retry-select :
    (g : Retry → Bool) (rs : List Retry) → AreOwnRetries rs → AreOwnRetries (select g rs)
own_retry-select g rs h owner id =
    omega (arith, length-select-select (is_retry owner id) g rs, h owner id)

module _ {base : Db} (db : Db) (v : IsValid base db) where
  drop_consumer-IsValid : (consumer : ℕ) → IsValid base (drop_consumer consumer db)
  unfolding drop_consumer
  drop_consumer-IsValid consumer = either-IsValid _ db _ v (others-IsValid db v _ _ _ _ _ _)

  demote-IsValid : (sub_id : ℕ) → IsValid base (demote sub_id db)
  unfolding demote
  demote-IsValid sub_id = either-IsValid _ db _ v (
      updated-IsValid db v _ (λ s. record s { sub_role = Role.normal; sub_active = db.now })
        (record { same_queue = λ x. refl; same_consumer = λ x. refl; no_batch = λ x b e. e }))

  delete-IsValid :
      (g : Subscription → Bool)
      → IsValid base (record db { subscriptions = delete g db.subscriptions })
  delete-IsValid g =
      AreSubscriptions-IsValid db db.batch_id_seq _ v
        (select-AreSubscriptions db.batch_id_seq db.subscriptions (IsValid-AreSubscriptions v) _)

module _ {base : Db} (db : Db) (v : IsValid base db) where
  pub unregister_member-IsValid : (s : Subscription) → IsValid base (unregister_member s db).1
  unfolding unregister_member
  unregister_member-IsValid s =
      let w = delete-IsValid db v (λ x. x.sub_id == s.sub_id && x.sub_consumer == s.sub_consumer) in
      grind (arith, v, demote-IsValid _ (drop_consumer-IsValid _ w s.sub_consumer) s.sub_id)

  unregister_main-IsValid : (s : Subscription) (n : ℕ) → IsValid base (unregister_main s n db).1
  unfolding unregister_main
  unregister_main-IsValid s n =
      let w = delete-IsValid db v (has_id s.sub_id) in
      let x =
        retries-IsValid _ w (delete (λ r. r.ev_owner == s.sub_id) db.retry_queue)
          (own_retry-select _ db.retry_queue v.own_retry) in
      grind (arith, v, drop_consumer-IsValid _ x s.sub_consumer)

  pub unregister_consumer-IsValid :
      (queue consumer : String) → IsValid base (unregister_consumer queue consumer db).1
  unfolding unregister_consumer
  unregister_consumer-IsValid queue consumer =
      grind (arith, v, unregister_member-IsValid, unregister_main-IsValid)
