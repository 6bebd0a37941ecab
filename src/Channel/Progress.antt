-- ===== src/Channel/Progress.antt =====
-- runtime/paco-runtime/src/channel.rs: clients never wait for each other alone.
use paco.Prelude.{
  ℕ, ◌≤◌, ◌≡◌, subst, ◌↔◌, ◌⊎◌, inl, inr, true, false, List, [], arith, ==_refl, length,
}
use paco.Channel.{
  send_is_ready, recv_is_ready, try_push, try_pop, goto, set_inner, update, send_wake,
  recv_register, send_parked, recv_parked, State, channel, Reaches, start, by_call, by_step,
  by_chance,
}
use paco.Channel.Registered.{IsFull, IsEmpty, IsPending, wakes_senders, wakes_receivers}
use paco.Channel.Waking.{send_parked-waits, recv_parked-waits}
use paco.Channel.Order.{Run, fresh, called, stepped, chanced, Run-Bounded}
use paco.Channel.Moves.{Bounded}

module _ {T : Type 0} where
  Reaches-Run :
      (capacity : ℕ) (s : State T)
      → Reaches capacity s
      → (a : List T) × (d : List T) × Run (channel capacity) a d s
  Reaches-Run capacity _ start = ([], [], fresh)
  Reaches-Run capacity _ (by_call s s' i call r e) =
      let (a, d, run) = Reaches-Run capacity s r in (a, d, called a d s s' i call run e)
  Reaches-Run capacity _ (by_step s s' i r e) =
      let (a, d, run) = Reaches-Run capacity s r in (_, _, stepped a d s s' i run e)
  Reaches-Run capacity _ (by_chance s s' i r e) =
      let (a, d, run) = Reaches-Run capacity s r in (a, d, chanced a d s s' i run e)

  -- While a sender and a receiver are parked and neither waker is fired, a third client is about
  -- to wake the senders or the receivers: the two never wait for each other alone.
  pub parked-IsPending :
      (capacity : ℕ) (s : State T) (i j : ℕ) (v : T) (n m : ℕ)
      → Reaches capacity s
      → s.clients i ≡ send_parked v n
      → s.clients j ≡ recv_parked m
      → s.fired n ≡ false
      → s.fired m ≡ false
      → IsPending wakes_senders s ⊎ IsPending wakes_receivers s
  unfolding IsFull IsEmpty Bounded
  parked-IsPending capacity s i j v n m r at at' u u' =
      let (_, why) = send_parked-waits capacity s i v n r at u in
      let (_, why') = recv_parked-waits capacity s j m r at' u' in
      let (a, d, run) = Reaches-Run capacity s r in
      let (same, bound) = Run-Bounded capacity a d s run in
      elim why [
        | inl full ↦ elim why' [
          | inl empty ↦
              let short = subst (λ q. s.inner.capacity ≤ length q) empty.0 full.0 in ground arith
          | inr p ↦ inr p
        ]
        | inr p ↦ inl p
      ]

  -- `Sender::is_ready` is true exactly in the states in which a `send` that takes the lock pushes
  -- its value, and `Receiver::is_ready` exactly in those in which a `recv` that takes the lock
  -- does not wait.
  pub is_ready_iff :
      (i : ℕ) (v : T) (s : State T)
      → ((send_is_ready s ≡ true) ↔ ((try_push i v s).clients i ≡ send_wake))
        × ((recv_is_ready s ≡ false) ↔ ((try_pop i s.inner.queue s).clients i ≡ recv_register))
  unfolding send_is_ready recv_is_ready try_push try_pop goto set_inner update
  is_ready_iff i v s = ground (arith, ==_refl i)
