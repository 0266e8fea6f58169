-- ===== src/Server/Steps/Subscribed.antt =====
-- Batches and registrations keep the tables of sql/pgque.sql valid.
use pg_que.Base.{
  ℕ, ◌+◌, ◌≤◌, ◌≡◌, refl, String, Bool, true, false, Option, none, some, List, length, All, ◌==◌,
  ◌&&◌, arith, Bool-cases, inl, inr, equal,
}
use pg_que.Base.Selections.{select}
use pg_que.Server.Tables.{Db, Subscription, Tick, is_nat, is_normal, has_batch, same_key, update}
use pg_que.Server.Batches.{open_batch, next_batch_of, next_batch, finished, cleared, finish_batch}
use pg_que.Server.Batches.Held.{stamps, stamped, not_drawn}
use pg_que.Server.Registration.{is_row}
use pg_que.Server.Steps.Rows.{
  length-select-update, length-select-select, All-update, All-map, All_each, All-select,
}
use pg_que.Server.Steps.Valid.{IsValid}

-- What is valid of the subscriptions, with the last number of a batch.
pub record AreSubscriptions (seq : ℕ) (subs : List Subscription) : Type 0 where
  pub drawn : All (λ s. (b : ℕ) → s.sub_batch ≡ some b → b ≤ seq) subs
  pub own_batch : (b : ℕ) → length (select (has_batch b) subs) ≤ 1
  pub own_row : (queue consumer : ℕ) → length (select (is_row queue consumer) subs) ≤ 1

pub IsValid-AreSubscriptions :
    {base db : Db} → IsValid base db → AreSubscriptions db.batch_id_seq db.subscriptions
IsValid-AreSubscriptions v = record {
  drawn = v.drawn;
  own_batch = v.own_batch;
  own_row = v.own_row;
}

pub AreSubscriptions-IsValid :
    {base : Db} (db : Db) (seq : ℕ) (subs : List Subscription)
    → IsValid base db
    → AreSubscriptions seq subs
    → IsValid base (record db { batch_id_seq = seq; subscriptions = subs })
AreSubscriptions-IsValid db seq subs v s = record {
  drawn = s.drawn;
  own_batch = s.own_batch;
  own_row = s.own_row;
  own_retry = v.own_retry;
  current = v.current;
  running = v.running;
  in_order = v.in_order;
  counted = v.counted;
  since = v.since;
  added = v.added;
  old_ticks = v.old_ticks;
  known_queues = v.known_queues;
  known_ticks = v.known_ticks;
  called = v.called;
}

-- A change that keeps the key of a row and gives it no other batch.
pub record IsKeeping (f : Subscription → Subscription) : Type 0 where
  pub same_queue : (x : Subscription) → (f x).sub_queue ≡ x.sub_queue
  pub same_consumer : (x : Subscription) → (f x).sub_consumer ≡ x.sub_consumer
  pub no_batch : (x : Subscription) (b : ℕ) → (f x).sub_batch ≡ some b → x.sub_batch ≡ some b

batch_number : (o : Option ℕ) (b : ℕ) → is_nat o b ≡ true → o ≡ some b
batch_number none b h = absurd (cc)
batch_number (some n) b h = rw (equal n b h) refl

is_batch : (o : Option ℕ) (b : ℕ) → o ≡ some b → is_nat o b ≡ true
is_batch none b h = absurd (cc)
is_batch (some n) b h = ground arith

module _ (seq : ℕ) (subs : List Subscription) (v : AreSubscriptions seq subs) where
  update-AreSubscriptions :
      (g : Subscription → Bool) (f : Subscription → Subscription)
      → IsKeeping f
      → AreSubscriptions seq (update g f subs)
  update-AreSubscriptions g f k = record {
    drawn = All-update _ g f subs (λ x h b e. h b (k.no_batch x b e)) v.drawn;
    own_batch = λ b. omega (
      arith,
      v.own_batch b,
      length-select-update (has_batch b) (has_batch b) g f subs (
          All_each _ subs (λ x. (
            λ hit h. is_batch x.sub_batch b (k.no_batch x b (batch_number (f x).sub_batch b h)),
            λ miss h. h,
          ))),
    );
    own_row = λ queue consumer. omega (
      arith,
      v.own_row queue consumer,
      length-select-update (is_row queue consumer) (is_row queue consumer) g f subs (
          All_each _ subs
            (λ x. (λ hit h. rw (k.same_queue x, k.same_consumer x) at h, λ miss h. h))),
    );
  }

  pub select-AreSubscriptions : (g : Subscription → Bool) → AreSubscriptions seq (select g subs)
  select-AreSubscriptions g = record {
    drawn = All-select _ g subs v.drawn;
    own_batch = λ b. omega (arith, v.own_batch b, length-select-select (has_batch b) g subs);
    own_row = λ queue consumer.
        omega
          (arith, v.own_row queue consumer, length-select-select (is_row queue consumer) g subs);
  }

  -- A batch with the next number, for one row.
  open_batch-AreSubscriptions :
      (db : Db) (s : Subscription) (cur : Tick)
      → db.batch_id_seq ≡ seq
      → AreSubscriptions (seq + 1) (update (stamps s) (stamped db cur) subs)
  open_batch-AreSubscriptions db s cur same = record {
    drawn =
        All-update _ (stamps s) (stamped db cur) subs
          (λ x h b e. omega (arith, same, number (db.batch_id_seq + 1) b e))
          (All-map _ _ subs (λ x h b e. omega (arith, h b e)) v.drawn);
    own_batch = λ b. elim (Bool-cases (b == seq + 1)) [
      | inl new ↦ omega (
        arith,
        v.own_row s.sub_queue s.sub_consumer,
        length-select-update (has_batch b) (is_row s.sub_queue s.sub_consumer) (stamps s)
            (stamped db cur) subs
            (All-map _ _ subs
              (λ x none_yet. (
                λ hit h. first_part (same_key s x) (is_normal x.sub_role) hit,
                λ miss h. absurd (cc (rw (equal b (seq + 1) new) at h)),
              ))
              (not_drawn seq subs v.drawn)),
      )
      | inr old ↦ omega (
        arith,
        v.own_batch b,
        length-select-update (has_batch b) (has_batch b) (stamps s) (stamped db cur) subs
            (All_each _ subs (λ x. (λ hit h. apart db.batch_id_seq b same old h, λ miss h. h))),
      )
    ];
    own_row = λ queue consumer. omega (
      arith,
      v.own_row queue consumer,
      length-select-update (is_row queue consumer) (is_row queue consumer) (stamps s)
          (stamped db cur) subs (All_each _ subs (λ x. (λ hit h. h, λ miss h. h))),
    );
  }
    where
      number : (n b : ℕ) → Path (Option ℕ) (some n) (some b) → n ≡ b
      number n b e = cc

      first_part : (a b : Bool) → (a && b) ≡ true → a ≡ true
      first_part a b e = ground arith

      apart : {B : Type 0} (n b : ℕ) → n ≡ seq → (b == seq + 1) ≡ false → (n + 1 == b) ≡ true → B
      apart n b same old h = absurd (ground arith)

module _ {base : Db} (db : Db) (v : IsValid base db) where
  pub updated-IsValid :
      (g : Subscription → Bool) (f : Subscription → Subscription)
      → IsKeeping f
      → IsValid base (record db { subscriptions = update g f db.subscriptions })
  updated-IsValid g f k =
      AreSubscriptions-IsValid db db.batch_id_seq _ v (
        update-AreSubscriptions db.batch_id_seq db.subscriptions (IsValid-AreSubscriptions v) g f k)

  open_batch-IsValid : (s : Subscription) (cur : Tick) → IsValid base (open_batch s cur db).1
  unfolding open_batch
  open_batch-IsValid s cur = AreSubscriptions-IsValid db (db.batch_id_seq + 1) _ v (
      open_batch-AreSubscriptions db.batch_id_seq db.subscriptions (IsValid-AreSubscriptions v) db s
        cur refl)

  pub next_batch-IsValid : (queue consumer : String) → IsValid base (next_batch queue consumer db).1
  unfolding next_batch next_batch_of
  next_batch-IsValid queue consumer = grind (arith, v, open_batch-IsValid)

  finished-IsKeeping : IsKeeping (finished db.now)
  finished-IsKeeping = record {
    same_queue = λ x. refl;
    same_consumer = λ x. refl;
    no_batch = λ x b e. absurd (cc e);
  }

  cleared-IsKeeping : IsKeeping (cleared db.now)
  cleared-IsKeeping = record {
    same_queue = λ x. refl;
    same_consumer = λ x. refl;
    no_batch = λ x b e. absurd (cc e);
  }

  cleared-IsValid :
      (s : Subscription)
      → IsValid base
          (record db { subscriptions = update (same_key s) (cleared db.now) db.subscriptions })
  cleared-IsValid s = updated-IsValid (same_key s) (cleared db.now) cleared-IsKeeping

  finished-IsValid :
      (s : Subscription)
      → IsValid base
          (record db { subscriptions = update (same_key s) (finished db.now) db.subscriptions })
  finished-IsValid s = updated-IsValid (same_key s) (finished db.now) finished-IsKeeping

  pub finish_batch-IsValid : (batch_id : ℕ) → IsValid base (finish_batch batch_id db).1
  unfolding finish_batch
  finish_batch-IsValid batch_id = grind (arith, v, cleared-IsValid, finished-IsValid)
