-- ===== src/Server/Batches/Held.antt =====
-- The subscription of an open batch of sql/pgque.sql, from `next_batch` to `finish_batch`.
use mathlib.Core.Path.{subst}
use pg_que.Base.{
  ℕ, ◌+◌, ◌≤◌, ◌==◌, String, equal, ◌≡◌, refl, sym, ap, ◌∙◌, Bool, true, false, Option, none, some,
  List, [], ◌∷◌, length, All, ◌&&◌, if◌then◌else◌, arith,
}
use pg_que.Base.Selections.{select}
use pg_que.Exec.{Result, ok}
use pg_que.Server.Tables.{
  Db, Subscription, Tick, Role, is_normal, is_nat, has_batch, same_key, is_named, named, holder,
  tick_of, update, next_tick,
}
use pg_que.Server.Tables.Updates.{find_holds, find-update, find_updated, find_stricter, find_only}
use pg_que.Server.Batches.{open_batch, next_batch, finished, finish_batch, rows_of}
use pg_que.Server.Batches.Next.{IsNextTick, next_tick-IsNextTick}
use pg_que.Server.Batches.Received.{Opened, refused, waiting, again, fresh, next_batch-Opened}

-- What PostgreSQL sees to: the sequence is past the batches, and no two subscriptions share one.
pub record IsConsistent (db : Db) : Type 0 where
  pub drawn : All (λ s. (b : ℕ) → s.sub_batch ≡ some b → b ≤ db.batch_id_seq) db.subscriptions
  pub own_batch : (b : ℕ) → length (select (has_batch b) db.subscriptions) ≤ 1

-- Where the batch of a subscription ends: the batch was open before, and nothing of it has changed, or
-- it ends at the tick that follows the place of the subscription in its queue.
pub data Ends (db : Db) (before sub : Subscription) : Type 0 where
  reopened : (batch_id : ℕ) → before.sub_batch ≡ some batch_id → sub ≡ before → Ends db before sub
  opened :
      (prev next : ℕ)
      → before.sub_batch ≡ none
      → before.sub_last_tick ≡ some prev
      → sub.sub_next_tick ≡ some next
      → IsNextTick db before.sub_queue prev next
      → Ends db before sub

-- From `db` to `db'` the consumer's batch is open; nothing else of its place in the queue changes.
pub record IsHeld (db db' : Db) (queue consumer : String) (batch_id : ℕ) : Type 0 where
  pub before : Subscription
  pub sub : Subscription
  pub was : named db queue consumer ≡ some before
  pub is : named db' queue consumer ≡ some sub
  pub held : holder db' batch_id ≡ some sub
  pub plain : sub.sub_role ≡ Role.normal
  pub same_place : sub.sub_last_tick ≡ before.sub_last_tick
  pub same_id : sub.sub_id ≡ before.sub_id
  pub ends : Ends db before sub
  pub same_rows : (t : Subscription) → rows_of db' t ≡ rows_of db t

pub not_drawn :
    (seq : ℕ) (subs : List Subscription)
    → All (λ s. (b : ℕ) → s.sub_batch ≡ some b → b ≤ seq) subs
    → All (λ s. has_batch (seq + 1) s ≡ false) subs
not_drawn seq [] h = tt
not_drawn seq (s ∷ subs) (h, hs) = (by_batch s.sub_batch h, not_drawn seq subs hs)
  where
    by_batch : (b : Option ℕ) → ((n : ℕ) → b ≡ some n → n ≤ seq) → is_nat b (seq + 1) ≡ false
    by_batch none h = refl
    by_batch (some n) h = ground (arith, h n refl)

-- The condition and the change of the update in `open_batch`.
abbrev pub stamps : Subscription → Subscription → Bool
stamps s t = same_key s t && is_normal t.sub_role

abbrev pub stamped : Db → Tick → Subscription → Subscription
stamped db cur t = record t {
  sub_batch = some (db.batch_id_seq + 1);
  sub_next_tick = some cur.tick_id;
  sub_active = db.now;
}

same_key_refl : (s : Subscription) → same_key s s ≡ true
same_key_refl s = ground arith

stamps_self : (s : Subscription) → s.sub_role ≡ Role.normal → stamps s s ≡ true
stamps_self s plain = rw (same_key_refl s, plain) refl

-- A row with the key of another is named as that is.
same_key-is_named :
    (db : Db) (queue consumer : String) (s x : Subscription)
    → is_named db queue consumer s ≡ true
    → same_key s x ≡ true
    → is_named db queue consumer x ≡ true
same_key-is_named db queue consumer s x h k =
    let (one, other) = both (x.sub_queue == s.sub_queue) (x.sub_consumer == s.sub_consumer) k in
    rw (equal x.sub_queue s.sub_queue one, equal x.sub_consumer s.sub_consumer other) h
  where
    both : (a b : Bool) → (a && b) ≡ true → (a ≡ true) × (b ≡ true)
    both a b e = ground arith

first_part : (a b : Bool) → (a && b) ≡ true → a ≡ true
first_part a b e = ground arith

found_same : {o : Option Subscription} (t s : Subscription) → o ≡ some t → o ≡ some s → t ≡ s
found_same t s h k = let e : some t ≡ some s = sym h ∙ k in cc

tick_of-id :
    (db : Db) (queue : ℕ) (o : Option ℕ) (prev : Tick)
    → tick_of db queue o ≡ some prev
    → o ≡ some prev.tick_id
unfolding tick_of
tick_of-id db queue none prev h = absurd (cc)
tick_of-id db queue (some id) prev h = ap some (
    sym (
      equal prev.tick_id id (
        last_part (prev.tick_queue == queue) (prev.tick_id == id)
          (find_holds (λ t. t.tick_queue == queue && t.tick_id == id) db.ticks prev h))))
  where
    last_part : (a b : Bool) → (a && b) ≡ true → b ≡ true
    last_part a b e = ground arith

module _ (db : Db) (queue consumer : String) (c : IsConsistent db) where
  again-IsHeld :
      (s : Subscription) (batch_id : ℕ)
      → named db queue consumer ≡ some s
      → s.sub_role ≡ Role.normal
      → s.sub_batch ≡ some batch_id
      → IsHeld db db queue consumer batch_id
  unfolding named holder
  again-IsHeld s batch_id is_there plain active = record {
    before = s;
    sub = s;
    was = is_there;
    is = is_there;
    held =
        find_only (is_named db queue consumer) (has_batch batch_id) db.subscriptions s is_there
          (rw active (self batch_id)) (c.own_batch batch_id);
    plain = plain;
    same_place = refl;
    same_id = refl;
    ends = reopened batch_id active refl;
    same_rows = λ t. refl;
  }
    where
      self : (n : ℕ) → (n == n) ≡ true
      self n = ground arith

  fresh-IsHeld :
      (s : Subscription) (prev cur : Tick)
      → named db queue consumer ≡ some s
      → s.sub_role ≡ Role.normal
      → s.sub_batch ≡ none
      → tick_of db s.sub_queue s.sub_last_tick ≡ some prev
      → next_tick db s.sub_queue prev.tick_id ≡ some cur
      → IsHeld db (open_batch s cur db).1 queue consumer (db.batch_id_seq + 1)
  unfolding named holder open_batch rows_of tick_of
  fresh-IsHeld s prev cur is_there plain free last next = record {
    before = s;
    sub = stamped db cur s;
    was = is_there;
    is =
        find-update (is_named db queue consumer) (stamps s) (stamped db cur) db.subscriptions s
          (λ x. refl) is_there
        ∙ ap (λ b. some (if b then stamped db cur s else s)) (stamps_self s plain);
    held =
        find_updated (has_batch (db.batch_id_seq + 1)) (stamps s) (stamped db cur) db.subscriptions
          s (λ x. self (db.batch_id_seq + 1)) (not_drawn db.batch_id_seq db.subscriptions c.drawn)
          (find_stricter (is_named db queue consumer) (stamps s) db.subscriptions s
            (λ x h.
              same_key-is_named db queue consumer s x
                (find_holds (is_named db queue consumer) db.subscriptions s is_there)
                (first_part (same_key s x) (is_normal x.sub_role) h))
            is_there (stamps_self s plain));
    plain = plain;
    same_place = refl;
    same_id = refl;
    ends =
        opened prev.tick_id cur.tick_id free (tick_of-id db s.sub_queue s.sub_last_tick prev last)
          refl (next_tick-IsNextTick db s.sub_queue prev.tick_id cur next);
    same_rows = λ t. refl;
  }
    where
      self : (n : ℕ) → (n == n) ≡ true
      self n = ground arith

  -- What is open after `next_batch`, by its outcome.
  IsHeldAt : Result (Option ℕ) × Db → Type 0
  IsHeldAt (ok (some batch_id), db') = IsHeld db db' queue consumer batch_id
  IsHeldAt _ = Unit

  Opened-IsHeldAt :
      {r : Result (Option ℕ) × Db}
      → Opened db queue consumer r
      → (s : Subscription) → named db queue consumer ≡ some s
      → s.sub_role ≡ Role.normal
      → IsHeldAt r
  unfolding IsHeldAt open_batch
  Opened-IsHeldAt (refused text) s is_there plain = tt
  Opened-IsHeldAt waiting s is_there plain = tt
  Opened-IsHeldAt (again t b t_there member active) s is_there plain =
      again-IsHeld t b t_there
        (ap (λ (x : Subscription). x.sub_role) (found_same t s t_there is_there) ∙ plain) active
  Opened-IsHeldAt (fresh t prev cur t_there member free last next) s is_there plain =
      fresh-IsHeld t prev cur t_there
        (ap (λ (x : Subscription). x.sub_role) (found_same t s t_there is_there) ∙ plain) free last
        next

  -- If the tables are consistent and the consumer is a normal one, the batch that `next_batch` gives
  -- is open for it, and its place in the queue is where it was.
  pub next_batch-IsHeld :
      (s : Subscription) (batch_id : ℕ) (db' : Db)
      → named db queue consumer ≡ some s
      → s.sub_role ≡ Role.normal
      → next_batch queue consumer db ≡ (ok (some batch_id), db')
      → IsHeld db db' queue consumer batch_id
  unfolding IsHeldAt
  next_batch-IsHeld s batch_id db' is_there plain given =
      subst IsHeldAt given (Opened-IsHeldAt (next_batch-Opened queue consumer db) s is_there plain)

module _ (db : Db) where
  pub finish_batch-eq :
      (batch_id : ℕ) (s : Subscription)
      → holder db batch_id ≡ some s
      → s.sub_role ≡ Role.normal
      → finish_batch batch_id db ≡ (
        ok 1,
        record db { subscriptions = update (same_key s) (finished db.now) db.subscriptions },
      )
  unfolding finish_batch
  finish_batch-eq batch_id s held plain = rw (finish_batch, held) (rw plain refl)

module _ (db : Db) (queue consumer : String) where
  -- `finish_batch` moves the consumer to the end of its batch.
  pub finish_batch-finished :
      (batch_id : ℕ) (s : Subscription)
      → named db queue consumer ≡ some s
      → holder db batch_id ≡ some s
      → s.sub_role ≡ Role.normal
      → named (finish_batch batch_id db).1 queue consumer ≡ some (finished db.now s)
  unfolding named
  finish_batch-finished batch_id s is_there held plain =
      rw (finish_batch-eq db batch_id s held plain) (
        find-update (is_named db queue consumer) (same_key s) (finished db.now) db.subscriptions s
          (λ x. refl) is_there
        ∙ ap (λ b. some (if b then finished db.now s else s)) (same_key_refl s))
