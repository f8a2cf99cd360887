-- ===== src/Pool/Within.antt =====
-- The count of open connections and its maximum against the capacity of the channel, over GetDB.
use nntp_history.Prelude.{
  ℕ, suc, ◌+◌, ◌≤◌, ◌<◌, Bool, true, false, List, [], ◌∷◌, Option, none, some, ◌≡◌, refl, sym, ap,
  ◌∙◌, arith, length, ltb, ltb→lt, Bool-cases, inl, inr, ◌&&◌,
}
use nntp_history.Prelude.Int.{pos, pos_part, dec, ltb_ℤ}
use nntp_history.Pool.{
  DbConn, Pool, Driver, get_db, take_or_open, connect_new, wait_for, revive, reconnect,
}
use nntp_history.Pool.Balance.{IsBalanced}

-- The pool was not closed, and neither its count nor the count that it may come to is above the channel's capacity.
pub record IsWithin (s : Pool) : Type 0 where
  pub max : ℕ
  pub max_is : s.max_open ≡ pos max
  pub max_fits : max ≤ s.cap
  pub count : ℕ
  pub count_is : s.is_open ≡ pos count
  pub count_fits : count ≤ s.cap
  pub not_closed : s.closed ≡ false

connect_new-IsWithin :
    (o : Option ℕ) (s : Pool)
    → IsWithin s
    → ltb_ℤ s.is_open s.max_open ≡ true
    → IsWithin (connect_new o s).1
unfolding connect_new
connect_new-IsWithin none s i more = i
connect_new-IsWithin (some h) s i more =
    let below : i.count < i.max = omega (
      arith,
      ltb→lt (i.count + 0) (i.max + 0) (
          sym (ap (λ z. ltb_ℤ z s.max_open) i.count_is ∙ ap (ltb_ℤ (pos i.count)) i.max_is) ∙ more),
    ) in
    record {
      max = i.max;
      max_is = i.max_is;
      max_fits = i.max_fits;
      count = i.count + 1;
      count_is = rw i.count_is (ap pos (omega arith));
      count_fits = omega (arith, i.max_fits);
      not_closed = i.not_closed;
    }

-- With one connection less in the channel.
pub with_dbs : (s : Pool) (dbs : List DbConn) → IsWithin s → IsWithin (record s { dbs = dbs })
with_dbs s dbs i = record {
  max = i.max;
  max_is = i.max_is;
  max_fits = i.max_fits;
  count = i.count;
  count_is = i.count_is;
  count_fits = i.count_fits;
  not_closed = i.not_closed;
}

take_or_open-IsWithin :
    (dbs : List DbConn) (w : Driver) (s : Pool) → IsWithin s → IsWithin (take_or_open w dbs s).1
unfolding take_or_open
take_or_open-IsWithin [] w s i = simp i.not_closed (elim (Bool-cases (ltb_ℤ s.is_open s.max_open)) [
  | inl more ↦ rw more (connect_new-IsWithin w.connect s i more)
  | inr full ↦ rw full i
])
take_or_open-IsWithin (conn ∷ rest) w s i = with_dbs s rest i

-- One connection less is counted.
pub one_less :
    (s : Pool) (n : ℕ)
    → IsWithin s
    → s.is_open ≡ pos (suc n)
    → IsWithin (record s { is_open = dec s.is_open })
one_less s n i e = record {
  max = i.max;
  max_is = i.max_is;
  max_fits = i.max_fits;
  count = n;
  count_is = rw e (ground arith);
  count_fits = omega (arith, ap pos_part (sym i.count_is ∙ e), i.count_fits);
  not_closed = i.not_closed;
}

reconnect-IsWithin :
    (o : Option ℕ) (n : ℕ) (s : Pool)
    → IsWithin s
    → s.is_open ≡ pos (suc n)
    → IsWithin (reconnect o s).1
unfolding reconnect
reconnect-IsWithin none n s i e = one_less s n i e
reconnect-IsWithin (some h) n s i e = i

revive-IsWithin :
    (db : Option ℕ) (w : Driver) (n : ℕ) (s : Pool)
    → IsWithin s
    → s.is_open ≡ pos (suc n)
    → IsWithin (revive w db s).1
unfolding revive
revive-IsWithin none w n s i e = reconnect-IsWithin w.connect n s i e
revive-IsWithin (some h) w n s i e = elim (Bool-cases w.ping_ok) [
  | inl alive ↦ rw alive i
  | inr dead ↦ rw dead (reconnect-IsWithin w.connect n s i e)
]

wait_for-IsWithin :
    (dbs : List DbConn) (w : Driver) (lent : ℕ) (s : Pool)
    → s.dbs ≡ dbs
    → IsBalanced lent s
    → IsWithin s
    → IsWithin (wait_for w dbs s).1
unfolding wait_for
wait_for-IsWithin [] w lent s e b i = simp i.not_closed i
wait_for-IsWithin (conn ∷ rest) w lent s e b i =
    let i' = with_dbs s rest i in
    elim (Bool-cases (ltb w.now conn.timeout)) [
      | inl fresh ↦ rw fresh i'
      | inr stale ↦ rw stale (
          revive-IsWithin conn.db w (length rest + lent) (record s { dbs = rest }) i'
            (b.counted ∙ ap pos (omega (arith, ap (length {A = DbConn}) e))))
    ]

pub get_db-IsWithin :
    (wait : Bool) (w : Driver) (lent : ℕ) (s : Pool)
    → IsBalanced lent s
    → IsWithin s
    → IsWithin (get_db wait w s).1
unfolding get_db
get_db-IsWithin wait w lent s b i = elim (Bool-cases (wait && ltb_ℤ (pos 0) s.is_open)) [
  | inl waits ↦ rw waits (wait_for-IsWithin s.dbs w lent s refl b i)
  | inr direct ↦ rw direct (take_or_open-IsWithin s.dbs w s i)
]
