-- ===== src/Channel/Senders.antt =====
-- runtime/paco-runtime/src/channel.rs: dropping the last sender closes the channel.
use paco.Prelude.{
  if-holds, ℕ, ◌+◌, ◌-◌, ◌≡◌, refl, sym, ◌∙◌, subst, ◌⊎◌, inl, inr, Bool, true, false, Option, none,
  some, List, [], ◌∷◌, ◌++◌, arith, ltb, ◌==◌, if◌then◌else◌, Bool-cases, length,
}
use paco.Channel.{
  Phase, idle, send_begin, send_lock, send_register, send_wake, send_parked, sent, send_failed,
  recv_lock, recv_register, recv_wake, recv_parked, received, recv_failed, close_lock,
  close_wake_senders, close_wake_receivers, State, Call, send, recv, close, clone_sender,
  drop_sender, update, channel, goto, set_inner, wake_senders, wake_receivers, try_push,
  register_sender, try_pop, register_receiver, with_lock, act, advance, at_rest, begin_call, invoke,
  leave_park, wake_spuriously, Reaches, start, by_call, by_step, by_chance,
}
use paco.Channel.Registered.{IsPending, IsPending-update, IsPending-own}

module _ {T : Type 0} where
  unfoldable pub is_closing : Phase T → Bool
  is_closing close_lock = true
  is_closing _ = false

  -- what a step leaves of the number of senders
  Counts : ℕ → State T → Phase T → Option (State T) → Type 0
  Counts i s p none = Unit {0}
  Counts i s p (some s') =
      (q : Phase T) × (s'.clients ≡ update i q s.clients)
      × (s'.inner.sender_count ≡ s.inner.sender_count)
      × (s.inner.closed ≡ true → s'.inner.closed ≡ true)
      × (is_closing p ≡ true → s'.inner.closed ≡ true)

  with_lock-Counts :
      (i : ℕ) (s : State T) (p : Phase T) (l : Option ℕ) (s' : State T)
      → Counts i s p (some s')
      → Counts i s p (with_lock l s')
  unfolding with_lock Counts
  with_lock-Counts i s p none s' h = h
  with_lock-Counts i s p (some _) s' h = tt

  Counts-quiet :
      (i : ℕ) (s : State T) (p q : Phase T) (s' : State T)
      → s'.clients ≡ update i q s.clients
      → s'.inner.sender_count ≡ s.inner.sender_count
      → s'.inner.closed ≡ s.inner.closed
      → is_closing p ≡ false
      → Counts i s p (some s')
  unfolding Counts
  Counts-quiet i s p q s' e count same h = (q, e, count, λ c. same ∙ c, λ h'. ground arith)

  try_push-Counts : (i : ℕ) (v : T) (s : State T) → Counts i s (send_lock v) (some (try_push i v s))
  unfolding try_push is_closing goto set_inner
  try_push-Counts i v s =
      if-holds (λ s'. Counts i s (send_lock v) (some s')) s.inner.closed (goto i (send_failed v) s)
        _
        (λ _.
          Counts-quiet i s (send_lock v) (send_failed v) (goto i (send_failed v) s) refl refl refl
            refl)
        (λ _.
          if-holds (λ s'. Counts i s (send_lock v) (some s'))
            (ltb (length s.inner.queue) s.inner.capacity)
            (set_inner i send_wake (record s.inner { queue = s.inner.queue ++ v ∷ [] }) s)
            (record (goto i (send_register v) s) { lock = some i })
            (λ _.
              Counts-quiet i s (send_lock v) send_wake
                (set_inner i send_wake (record s.inner { queue = s.inner.queue ++ v ∷ [] }) s) refl
                refl refl refl)
            (λ _.
              Counts-quiet i s (send_lock v) (send_register v)
                (record (goto i (send_register v) s) { lock = some i }) refl refl refl refl))

  try_pop-Counts :
      (i : ℕ) (queue : List T) (s : State T) → Counts i s recv_lock (some (try_pop i queue s))
  unfolding try_pop is_closing goto set_inner
  try_pop-Counts i (v ∷ vs) s =
      Counts-quiet i s recv_lock (recv_wake v)
        (set_inner i (recv_wake v) (record s.inner { queue = vs }) s) refl refl refl refl
  try_pop-Counts i [] s =
      if-holds (λ s'. Counts i s recv_lock (some s')) s.inner.closed (goto i recv_failed s)
        (record (goto i recv_register s) { lock = some i })
        (λ _. Counts-quiet i s recv_lock recv_failed (goto i recv_failed s) refl refl refl refl)
        (λ _.
          Counts-quiet i s recv_lock recv_register
            (record (goto i recv_register s) { lock = some i }) refl refl refl refl)

  act-Counts : (i : ℕ) (s : State T) (p : Phase T) → Counts i s p (act i s p)
  unfolding act Counts is_closing goto set_inner wake_senders wake_receivers register_sender
      register_receiver
  act-Counts i s (send_begin v) =
      if-holds (Counts i s (send_begin v)) s.inner.closed (some (goto i (send_failed v) s))
        (some (goto i (send_lock v) s))
        (λ _.
          Counts-quiet i s (send_begin v) (send_failed v) (goto i (send_failed v) s) refl refl refl
            refl)
        (λ _.
          Counts-quiet i s (send_begin v) (send_lock v) (goto i (send_lock v) s) refl refl refl
            refl)
  act-Counts i s (send_lock v) =
      with_lock-Counts i s (send_lock v) s.lock (try_push i v s) (try_push-Counts i v s)
  act-Counts i s (send_register v) =
      Counts-quiet i s (send_register v) (send_parked v s.next_waker) (register_sender i v s) refl
        refl refl refl
  act-Counts i s send_wake =
      Counts-quiet i s send_wake sent (wake_receivers i sent s) refl refl refl refl
  act-Counts i s (send_parked v n) =
      if-holds (Counts i s (send_parked v n)) (s.fired n) (some (goto i (send_begin v) s)) none
        (λ _.
          Counts-quiet i s (send_parked v n) (send_begin v) (goto i (send_begin v) s) refl refl refl
            refl)
        (λ _. tt)
  act-Counts i s recv_lock =
      with_lock-Counts i s recv_lock s.lock (try_pop i s.inner.queue s)
        (try_pop-Counts i s.inner.queue s)
  act-Counts i s recv_register =
      Counts-quiet i s recv_register (recv_parked s.next_waker) (register_receiver i s) refl refl
        refl refl
  act-Counts i s (recv_wake v) =
      Counts-quiet i s (recv_wake v) (received v) (wake_senders i (received v) s) refl refl refl
        refl
  act-Counts i s (recv_parked n) =
      if-holds (Counts i s (recv_parked n)) (s.fired n) (some (goto i recv_lock s)) none
        (λ _. Counts-quiet i s (recv_parked n) recv_lock (goto i recv_lock s) refl refl refl refl)
        (λ _. tt)
  act-Counts i s close_lock =
      let s' = set_inner i close_wake_senders (record s.inner { closed = true }) s in
      with_lock-Counts i s close_lock s.lock s'
        (close_wake_senders, refl, refl, λ _. refl, λ _. refl)
  act-Counts i s close_wake_senders =
      Counts-quiet i s close_wake_senders close_wake_receivers
        (wake_senders i close_wake_receivers s) refl refl refl refl
  act-Counts i s close_wake_receivers =
      Counts-quiet i s close_wake_receivers idle (wake_receivers i idle s) refl refl refl refl
  act-Counts i s _ = tt

  leave_park-Counts : (i : ℕ) (s : State T) (p : Phase T) → Counts i s p (leave_park i p s)
  unfolding leave_park Counts is_closing goto
  leave_park-Counts i s (send_parked v n) =
      Counts-quiet i s (send_parked v n) (send_begin v) (goto i (send_begin v) s) refl refl refl
        refl
  leave_park-Counts i s (recv_parked n) =
      Counts-quiet i s (recv_parked n) recv_lock (goto i recv_lock s) refl refl refl refl
  leave_park-Counts i s _ = tt

  IsLast : State T → Type 0
  IsLast s = s.inner.sender_count ≡ 0 → (s.inner.closed ≡ true) ⊎ IsPending is_closing s

  Counts-IsLast :
      (i : ℕ) (s s' : State T) → Counts i s (s.clients i) (some s') → IsLast s → IsLast s'
  unfolding Counts IsLast
  Counts-IsLast i s s' (q, e, count, stays, closes) last none_left =
      elim (last (sym count ∙ none_left)) [
        | inl c ↦ inl (stays c)
        | inr p ↦ elim (Bool-cases (is_closing (s.clients i))) [
          | inl here ↦ inl (closes here)
          | inr elsewhere ↦ inr (IsPending-update is_closing i q s s' e (λ h. ground arith) p)
        ]
      ]

  LastHolds : Option (State T) → Type 0
  LastHolds none = Unit {0}
  LastHolds (some s') = IsLast s'

  begin_call-IsLast :
      (i : ℕ) (call : Call T) (s : State T)
      → is_closing (s.clients i) ≡ false
      → IsLast s
      → LastHolds (begin_call i call s)
  unfolding begin_call LastHolds is_closing goto set_inner IsLast
  begin_call-IsLast i (send v) s quiet last =
      Counts-IsLast i s (goto i (send_begin v) s)
        (Counts-quiet i s (s.clients i) (send_begin v) (goto i (send_begin v) s) refl refl refl
          quiet)
        last
  begin_call-IsLast i recv s quiet last =
      Counts-IsLast i s (goto i recv_lock s)
        (Counts-quiet i s (s.clients i) recv_lock (goto i recv_lock s) refl refl refl quiet) last
  begin_call-IsLast i close s quiet last =
      Counts-IsLast i s (goto i close_lock s)
        (Counts-quiet i s (s.clients i) close_lock (goto i close_lock s) refl refl refl quiet) last
  begin_call-IsLast i clone_sender s quiet last =
      if-holds LastHolds (ltb 0 s.inner.sender_count)
        (some (set_inner i idle (record s.inner { sender_count = s.inner.sender_count + 1 }) s))
        none (λ _ e. ground arith) (λ _. tt)
  begin_call-IsLast i drop_sender s quiet last =
      let fewer = record s.inner { sender_count = s.inner.sender_count - 1 } in
      if-holds LastHolds (ltb 0 s.inner.sender_count)
        (some (set_inner i (if s.inner.sender_count == 1 then close_lock else idle) fewer s)) none
        (λ some_left.
          if-holds (λ p. IsLast (set_inner i p fewer s)) (s.inner.sender_count == 1) close_lock idle
            (λ _ _. inr (
              IsPending-own is_closing i close_lock (set_inner i close_lock fewer s) s.clients refl
                refl))
            (λ others e. ground arith))
        (λ _. tt)

  at_rest-quiet : (p : Phase T) → at_rest p ≡ true → is_closing p ≡ false
  unfolding at_rest is_closing
  at_rest-quiet close_lock h = ground arith
  at_rest-quiet _ h = refl

  -- In every state that a channel comes to, if there is no sender left, it is closed or a client
  -- is about to close it.
  pub last_sender-closes :
      (capacity : ℕ) (s : State T)
      → Reaches capacity s
      → s.inner.sender_count ≡ 0
      → (s.inner.closed ≡ true) ⊎ IsPending is_closing s
  unfolding channel advance wake_spuriously invoke LastHolds IsLast Counts
  last_sender-closes capacity _ start = λ e. ground arith
  last_sender-closes capacity _ (by_call s s' i call r e) = subst LastHolds e (
      if-holds LastHolds (at_rest (s.clients i)) (begin_call i call s) none
        (λ rest.
          begin_call-IsLast i call s (at_rest-quiet (s.clients i) rest)
            (last_sender-closes capacity s r))
        (λ _. tt))
  last_sender-closes capacity _ (by_step s s' i r e) =
      Counts-IsLast i s s' (subst (Counts i s (s.clients i)) e (act-Counts i s (s.clients i)))
        (last_sender-closes capacity s r)
  last_sender-closes capacity _ (by_chance s s' i r e) =
      Counts-IsLast i s s'
        (subst (Counts i s (s.clients i)) e (leave_park-Counts i s (s.clients i)))
        (last_sender-closes capacity s r)
