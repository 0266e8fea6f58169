-- ===== src/Consumer/Handlers.antt =====
-- The constructor of the consumer and the registration of handlers.
use pg_que.Base.{
  String, ◌≡◌, refl, true, false, some, List, [], ◌∷◌, ◌&&◌, not, str_eq, eq_iff, if◌then◌else◌,
  arith,
}
use pg_que.Value.{str}
use pg_que.Exec.{ok, is_ok}
use pg_que.Consumer.{
  Consumer, Handler, Settings, init, on, put, get, handler_for, or_default, is_policy, is_some,
}

-- The constructor accepts exactly the settings whose policy is known and whose dead interval, if
-- there is one, comes with a subconsumer.
pub is_ok-init :
    (E : Type 0) (s : Settings)
    → is_ok (init {E = E} s) ≡ (
        is_policy s.unknown_handler_policy
        && not (is_some s.dead_interval && not (is_some s.subconsumer)))
unfolding init
is_ok-init E s = ground arith

module _ {E : Type 0} where
  -- What the constructor makes sure of.
  pub record IsValid (c : Consumer E) : Type 0 where
    pub policy : is_policy c.unknown_handler_policy ≡ true
    pub cooperative : (is_some c.dead_interval && not (is_some c.subconsumer)) ≡ false

  -- A consumer that the constructor returns is valid, and stays so when handlers are registered.
  pub on-init-IsValid :
      (s : Settings) (c : Consumer E) (event_type : String) (h : Handler E)
      → init s ≡ ok c
      → IsValid c × IsValid (on event_type h c)
  unfolding init on
  on-init-IsValid s c event_type h made = ground arith

  get-put :
      (u t : String) (h : Handler E) (d : List (String × Handler E))
      → get u (put t h d) ≡ (if str_eq t u then some h else get u d)
  unfolding get put
  get-put u t h [] = refl
  get-put u t h ((j, g) ∷ d) = ground (arith, eq_iff j t, eq_iff j u, eq_iff t u, get-put u t h d)

  -- After a registration a message of the registered type has the new handler; under "*" it is the
  -- handler of the types that have none. Nothing else changes.
  pub handler_for-on :
      (c : Consumer E) (t u : String) (h : Handler E)
      → handler_for (on t h c) (str u) ≡ (
          if str_eq t "*"
          then ok (or_default (get u c.handlers) (some h))
          else if str_eq t u
          then ok (some h)
          else handler_for c (str u))
  unfolding handler_for on
  handler_for-on c t u h = ground (arith, get-put u t h c.handlers)
