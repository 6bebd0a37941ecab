-- ===== src/Channel/Waking.antt =====
-- runtime/paco-runtime/src/channel.rs: no wake-up is lost.
use paco.Prelude.{if-holds, ℕ, ◌+◌, ◌-◌, ◌≡◌, refl, ap, subst, ◌⊎◌, true, false, arith, ltb, ◌==◌}
use paco.Channel.{
  Phase, idle, send_begin, send_parked, sent, send_failed, recv_lock, recv_parked, received,
  recv_failed, close_lock, State, Call, send, recv, close, clone_sender, drop_sender, mem_waiter,
  channel, set_inner, advance, at_rest, begin_call, invoke, leave_park, wake_spuriously, Reaches,
  start, by_call, by_step, by_chance,
}
use paco.Channel.Registered.{
  IsFull, IsEmpty, wakes_senders, wakes_receivers, IsPending, Waits, Inv, preserve,
}
use paco.Channel.Frames.{Frame-quiet}
use paco.Channel.Keeping.{Keeps, keeps_quiet, act-Inv}

module _ {T : Type 0} where
  at_rest-quiet :
      (p : Phase T) → at_rest p ≡ true → (wakes_senders p ≡ false) × (wakes_receivers p ≡ false)
  unfolding at_rest wakes_senders wakes_receivers
  at_rest-quiet idle h = (refl, refl)
  at_rest-quiet sent h = (refl, refl)
  at_rest-quiet (send_failed _) h = (refl, refl)
  at_rest-quiet (received _) h = (refl, refl)
  at_rest-quiet recv_failed h = (refl, refl)
  at_rest-quiet _ h = ground arith

  -- only the number of senders changes
  keeps_count :
      (i : ℕ) (p : Phase T) (n : ℕ) (s : State T)
      → wakes_senders (s.clients i) ≡ false
      → wakes_receivers (s.clients i) ≡ false
      → Waits i (set_inner i p (record s.inner { sender_count = n }) s) p
      → Inv s
      → Inv (set_inner i p (record s.inner { sender_count = n }) s)
  unfolding set_inner IsFull IsEmpty
  keeps_count i p n s qs qr own inv =
      let s' = set_inner i p (record s.inner { sender_count = n }) s in
      preserve i p s s' refl
        (Frame-quiet i p s s' refl (λ j h. h) (λ h. h) (λ h. h) refl refl refl qs qr) own inv

  begin_call-Inv :
      (i : ℕ) (call : Call T) (s : State T)
      → wakes_senders (s.clients i) ≡ false
      → wakes_receivers (s.clients i) ≡ false
      → Inv s
      → Keeps (begin_call i call s)
  unfolding begin_call Keeps Waits
  begin_call-Inv i (send v) s qs qr inv = keeps_quiet i (send_begin v) s qs qr tt inv
  begin_call-Inv i recv s qs qr inv = keeps_quiet i recv_lock s qs qr tt inv
  begin_call-Inv i close s qs qr inv = keeps_quiet i close_lock s qs qr tt inv
  begin_call-Inv i clone_sender s qs qr inv =
      if-holds Keeps (ltb 0 s.inner.sender_count) _ _
        (λ c. keeps_count i idle (s.inner.sender_count + 1) s qs qr tt inv) (λ c. tt)
  begin_call-Inv i drop_sender s qs qr inv =
      if-holds Keeps (ltb 0 s.inner.sender_count) _ _
        (λ c.
          if-holds
            (λ p.
              Inv (set_inner i p (record s.inner { sender_count = s.inner.sender_count - 1 }) s))
            (s.inner.sender_count == 1) close_lock idle
            (λ last. keeps_count i close_lock (s.inner.sender_count - 1) s qs qr tt inv)
            (λ others. keeps_count i idle (s.inner.sender_count - 1) s qs qr tt inv))
        (λ c. tt)

  invoke-Inv : (i : ℕ) (call : Call T) (s : State T) → Inv s → Keeps (invoke i call s)
  unfolding invoke Keeps
  invoke-Inv i call s inv =
      if-holds Keeps (at_rest (s.clients i)) _ _
        (λ rest.
          let (qs, qr) = at_rest-quiet (s.clients i) rest in begin_call-Inv i call s qs qr inv)
        (λ c. tt)

  leave_park-Inv :
      (i : ℕ) (s : State T) (p : Phase T) → s.clients i ≡ p → Inv s → Keeps (leave_park i p s)
  unfolding leave_park Keeps Waits wakes_senders wakes_receivers
  leave_park-Inv i s (send_parked v n) at inv =
      keeps_quiet i (send_begin v) s (ap wakes_senders at) (ap wakes_receivers at) tt inv
  leave_park-Inv i s (recv_parked n) at inv =
      keeps_quiet i recv_lock s (ap wakes_senders at) (ap wakes_receivers at) tt inv
  leave_park-Inv i s _ at inv = tt

  reaches-Inv : (capacity : ℕ) (s : State T) → Reaches capacity s → Inv s
  unfolding Keeps advance wake_spuriously Inv channel Waits
  reaches-Inv capacity _ start = λ j. tt
  reaches-Inv capacity _ (by_call s s' i call r e) =
      subst Keeps e (invoke-Inv i call s (reaches-Inv capacity s r))
  reaches-Inv capacity _ (by_step s s' i r e) =
      subst Keeps e (act-Inv i s (s.clients i) refl (reaches-Inv capacity s r))
  reaches-Inv capacity _ (by_chance s s' i r e) =
      subst Keeps e (leave_park-Inv i s (s.clients i) refl (reaches-Inv capacity s r))

  -- A sender that is parked and whose waker is not fired is registered, and in every state that a
  -- channel comes to either the queue is full and the channel open, or another client is about to
  -- wake the senders.
  pub send_parked-waits :
      (capacity : ℕ) (s : State T) (i : ℕ) (v : T) (n : ℕ)
      → Reaches capacity s
      → s.clients i ≡ send_parked v n
      → s.fired n ≡ false
      → (mem_waiter n s.inner.send_waiters ≡ true) × (IsFull s ⊎ IsPending wakes_senders s)
  unfolding Waits Inv
  send_parked-waits capacity s i v n r at = subst (Waits i s) at (reaches-Inv capacity s r i)

  -- A receiver that is parked and whose waker is not fired is registered, and in every state that
  -- a channel comes to either the queue is empty and the channel open, or another client is about
  -- to wake the receivers.
  pub recv_parked-waits :
      (capacity : ℕ) (s : State T) (i : ℕ) (n : ℕ)
      → Reaches capacity s
      → s.clients i ≡ recv_parked n
      → s.fired n ≡ false
      → (mem_waiter n s.inner.recv_waiters ≡ true) × (IsEmpty s ⊎ IsPending wakes_receivers s)
  unfolding Waits Inv
  recv_parked-waits capacity s i n r at = subst (Waits i s) at (reaches-Inv capacity s r i)
