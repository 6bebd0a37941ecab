-- ===== src/Channel/Moves.antt =====
-- runtime/paco-runtime/src/channel.rs: the values that a step moves.
use paco.Prelude.{
  if-holds, ℕ, ◌≤◌, max, ◌≡◌, refl, ◌∙◌, subst, true, Option, none, some, List, [], ◌∷◌, ◌++◌,
  append-nil, arith, ltb, length, length-append,
}
use paco.Channel.{
  Phase, idle, send_begin, send_lock, send_register, send_wake, send_parked, sent, send_failed,
  recv_lock, recv_register, recv_wake, recv_parked, received, recv_failed, close_lock,
  close_wake_senders, close_wake_receivers, State, update, goto, set_inner, wake_senders,
  wake_receivers, try_push, register_sender, try_pop, register_receiver, with_lock, act,
}
use paco.Channel.Registered.{client-own}

module _ {T : Type 0} where
  -- the values that enter the queue in a step, by the places where its client stands before and
  -- after: behind the push, `send` goes on to wake receivers and returns `Ok`
  unfoldable pub accepts : Phase T → Phase T → List T
  accepts (send_lock v) send_wake = v ∷ []
  accepts _ _ = []

  -- the values that leave the queue in a step: `recv` goes on to return them
  unfoldable pub delivers : Phase T → Phase T → List T
  delivers recv_lock (recv_wake v) = v ∷ []
  delivers _ _ = []

  unfoldable pub Bounded : ℕ → State T → Type 0
  Bounded capacity s =
      (s.inner.capacity ≡ max capacity 1) × (length s.inner.queue ≤ s.inner.capacity)

  -- what a step moves
  unfoldable pub Moves : ℕ → ℕ → State T → Phase T → Option (State T) → Type 0
  Moves capacity i s p none = Unit {0}
  Moves capacity i s p (some s') =
      (q : Phase T) × (s'.clients i ≡ q)
      × (s.inner.queue ++ accepts p q ≡ delivers p q ++ s'.inner.queue)
      × (Bounded capacity s → Bounded capacity s')

  own :
      (i : ℕ) (q : Phase T) (s s' : State T) → s'.clients ≡ update i q s.clients → s'.clients i ≡ q
  own i q s s' e = client-own i q s.clients s'.clients e

  Moves-locked :
      (capacity i : ℕ) (s : State T) (p : Phase T) (l : Option ℕ) (s' : State T)
      → Moves capacity i s p (some s')
      → Moves capacity i s p (with_lock l s')
  unfolding with_lock Moves
  Moves-locked capacity i s p none s' h = h
  Moves-locked capacity i s p (some _) s' h = tt

  -- a step that leaves the queue
  pub quiet :
      (capacity i : ℕ) (s : State T) (p q : Phase T) (s' : State T)
      → s'.clients ≡ update i q s.clients
      → accepts p q ≡ []
      → delivers p q ≡ []
      → s'.inner.queue ≡ s.inner.queue
      → s'.inner.capacity ≡ s.inner.capacity
      → Moves capacity i s p (some s')
  unfolding Moves Bounded
  quiet capacity i s p q s' e no_accept no_deliver same same_capacity = (
    q,
    own i q s s' e,
    rw (no_accept, no_deliver, same) (append-nil s.inner.queue),
    λ b. (rw same_capacity b.0, rw (same, same_capacity) b.1),
  )

  try_push-Moves :
      (capacity i : ℕ) (v : T) (s : State T)
      → Moves capacity i s (send_lock v) (some (try_push i v s))
  unfolding Moves try_push goto set_inner accepts delivers Bounded
  try_push-Moves capacity i v s =
      if-holds (λ s'. Moves capacity i s (send_lock v) (some s')) s.inner.closed
        (goto i (send_failed v) s) _
        (λ c.
          quiet capacity i s (send_lock v) (send_failed v) (goto i (send_failed v) s) refl refl refl
            refl refl)
        (λ c.
          if-holds (λ s'. Moves capacity i s (send_lock v) (some s'))
            (ltb (length s.inner.queue) s.inner.capacity)
            (set_inner i send_wake (record s.inner { queue = s.inner.queue ++ v ∷ [] }) s)
            (record (goto i (send_register v) s) { lock = some i })
            (λ room. (
              send_wake,
              own i send_wake s
                  (set_inner i send_wake (record s.inner { queue = s.inner.queue ++ v ∷ [] }) s)
                  refl,
              refl,
              λ b. (b.0, rw (length-append s.inner.queue (v ∷ [])) (ground arith)),
            ))
            (λ full.
              quiet capacity i s (send_lock v) (send_register v)
                (record (goto i (send_register v) s) { lock = some i }) refl refl refl refl refl))

  try_pop-Moves :
      (capacity i : ℕ) (queue : List T) (s : State T)
      → s.inner.queue ≡ queue
      → Moves capacity i s recv_lock (some (try_pop i queue s))
  unfolding Moves try_pop goto set_inner accepts delivers Bounded
  try_pop-Moves capacity i (v ∷ vs) s e = (
    recv_wake v,
    own i (recv_wake v) s (set_inner i (recv_wake v) (record s.inner { queue = vs }) s) refl,
    append-nil s.inner.queue ∙ e,
    λ b. (b.0, let long = subst (λ q. length q ≤ s.inner.capacity) e b.1 in ground arith),
  )
  try_pop-Moves capacity i [] s e =
      if-holds (λ s'. Moves capacity i s recv_lock (some s')) s.inner.closed (goto i recv_failed s)
        (record (goto i recv_register s) { lock = some i })
        (λ c.
          quiet capacity i s recv_lock recv_failed (goto i recv_failed s) refl refl refl refl refl)
        (λ c.
          quiet capacity i s recv_lock recv_register
            (record (goto i recv_register s) { lock = some i }) refl refl refl refl refl)

  pub act-Moves : (capacity i : ℕ) (s : State T) (p : Phase T) → Moves capacity i s p (act i s p)
  unfolding Moves act accepts delivers goto set_inner wake_senders wake_receivers register_sender
      register_receiver
  act-Moves capacity i s (send_begin v) =
      if-holds (Moves capacity i s (send_begin v)) s.inner.closed (some (goto i (send_failed v) s))
        (some (goto i (send_lock v) s))
        (λ c.
          quiet capacity i s (send_begin v) (send_failed v) (goto i (send_failed v) s) refl refl
            refl refl refl)
        (λ c.
          quiet capacity i s (send_begin v) (send_lock v) (goto i (send_lock v) s) refl refl refl
            refl refl)
  act-Moves capacity i s (send_lock v) =
      Moves-locked capacity i s (send_lock v) s.lock (try_push i v s)
        (try_push-Moves capacity i v s)
  act-Moves capacity i s (send_register v) =
      quiet capacity i s (send_register v) (send_parked v s.next_waker) (register_sender i v s) refl
        refl refl refl refl
  act-Moves capacity i s send_wake =
      quiet capacity i s send_wake sent (wake_receivers i sent s) refl refl refl refl refl
  act-Moves capacity i s (send_parked v n) =
      if-holds (Moves capacity i s (send_parked v n)) (s.fired n) (some (goto i (send_begin v) s))
        none
        (λ c.
          quiet capacity i s (send_parked v n) (send_begin v) (goto i (send_begin v) s) refl refl
            refl refl refl)
        (λ c. tt)
  act-Moves capacity i s recv_lock =
      Moves-locked capacity i s recv_lock s.lock (try_pop i s.inner.queue s)
        (try_pop-Moves capacity i s.inner.queue s refl)
  act-Moves capacity i s recv_register =
      quiet capacity i s recv_register (recv_parked s.next_waker) (register_receiver i s) refl refl
        refl refl refl
  act-Moves capacity i s (recv_wake v) =
      quiet capacity i s (recv_wake v) (received v) (wake_senders i (received v) s) refl refl refl
        refl refl
  act-Moves capacity i s (recv_parked n) =
      if-holds (Moves capacity i s (recv_parked n)) (s.fired n) (some (goto i recv_lock s)) none
        (λ c.
          quiet capacity i s (recv_parked n) recv_lock (goto i recv_lock s) refl refl refl refl
            refl)
        (λ c. tt)
  act-Moves capacity i s close_lock =
      let s' = set_inner i close_wake_senders (record s.inner { closed = true }) s in
      Moves-locked capacity i s close_lock s.lock s'
        (quiet capacity i s close_lock close_wake_senders s' refl refl refl refl refl)
  act-Moves capacity i s close_wake_senders =
      quiet capacity i s close_wake_senders close_wake_receivers
        (wake_senders i close_wake_receivers s) refl refl refl refl refl
  act-Moves capacity i s close_wake_receivers =
      quiet capacity i s close_wake_receivers idle (wake_receivers i idle s) refl refl refl refl
        refl
  act-Moves capacity i s _ = tt
