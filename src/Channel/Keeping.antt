-- ===== src/Channel/Keeping.antt =====
-- runtime/paco-runtime/src/channel.rs: the steps of `send`, `recv` and `close` keep what
-- registered clients rely on.
use paco.Prelude.{
  if-holds, ℕ, ◌≡◌, refl, ap, subst, inl, inr, true, false, Option, none, some, List, [], ◌∷◌, ◌++◌,
  arith, ltb, length,
}
use paco.Channel.{
  Phase, idle, send_begin, send_lock, send_register, send_wake, send_parked, sent, send_failed,
  recv_lock, recv_register, recv_wake, recv_parked, received, recv_failed, close_lock,
  close_wake_senders, close_wake_receivers, State, goto, set_inner, wake_senders, wake_receivers,
  try_push, register_sender, try_pop, register_receiver, with_lock, act,
}
use paco.Channel.Registered.{
  mem_waiter-last, IsFull, IsEmpty, wakes_senders, wakes_receivers, Waits, Inv, preserve,
  IsPending-update, IsPending-own,
}
use paco.Channel.Frames.{
  Frame-quiet, Frame-wake_senders, Frame-wake_receivers, Frame-register_sender,
  Frame-register_receiver, Frame-locked,
}

module _ {T : Type 0} where
  -- the outcome of a step keeps the invariant
  unfoldable pub Keeps : Option (State T) → Type 0
  unfolding Inv
  Keeps none = Unit {0}
  Keeps (some s') = Inv s'

  pub keeps_quiet :
      (i : ℕ) (p : Phase T) (s : State T)
      → wakes_senders (s.clients i) ≡ false
      → wakes_receivers (s.clients i) ≡ false
      → Waits i (goto i p s) p
      → Inv s
      → Inv (goto i p s)
  unfolding goto IsFull IsEmpty
  keeps_quiet i p s qs qr own inv =
      preserve i p s (goto i p s) refl
        (Frame-quiet i p s (goto i p s) refl (λ j h. h) (λ h. h) (λ h. h) refl refl refl qs qr) own
        inv

  -- a step that takes the free lock and keeps it
  keeps_locking :
      (i : ℕ) (p : Phase T) (s : State T)
      → wakes_senders (s.clients i) ≡ false
      → wakes_receivers (s.clients i) ≡ false
      → s.lock ≡ none
      → Waits i (record (goto i p s) { lock = some i }) p
      → Inv s
      → Inv (record (goto i p s) { lock = some i })
  unfolding goto IsFull IsEmpty
  keeps_locking i p s qs qr free own inv =
      let s' = record (goto i p s) { lock = some i } in
      preserve i p s s' refl
        (Frame-quiet i p s s' refl (λ j h. ground arith) (λ h. h) (λ h. h) refl refl refl qs qr) own
        inv

  try_push-Inv :
      (i : ℕ) (v : T) (s : State T)
      → s.clients i ≡ send_lock v
      → s.lock ≡ none
      → Inv s
      → Inv (try_push i v s)
  unfolding try_push set_inner IsFull IsEmpty Waits wakes_senders wakes_receivers
  try_push-Inv i v s at free inv =
      let qs = ap wakes_senders at in
      let qr = ap wakes_receivers at in
      let inner = record s.inner { queue = s.inner.queue ++ v ∷ [] } in
      let s' = set_inner i send_wake inner s in
      if-holds Inv s.inner.closed _ _ (λ c. keeps_quiet i (send_failed v) s qs qr tt inv)
        (λ c.
          if-holds Inv (ltb (length s.inner.queue) s.inner.capacity) _ _
            (λ room.
              preserve i send_wake s s' refl
                (Frame-locked i send_wake s inner free refl refl
                  (λ why. elim why [
                    | inl full ↦ ground arith
                    | inr p ↦
                        inr (
                          IsPending-update wakes_senders i send_wake s s' refl (λ h. ground arith)
                            p)
                  ])
                  (λ why. inr (IsPending-own wakes_receivers i send_wake s' s.clients refl refl)))
                tt inv)
            (λ no_room. keeps_locking i (send_register v) s qs qr free (refl, ground arith) inv))

  try_pop-Inv :
      (i : ℕ) (queue : List T) (s : State T)
      → s.inner.queue ≡ queue
      → s.clients i ≡ recv_lock
      → s.lock ≡ none
      → Inv s
      → Inv (try_pop i queue s)
  unfolding try_pop set_inner IsFull IsEmpty Waits wakes_senders wakes_receivers
  try_pop-Inv i (v ∷ vs) s has at free inv =
      let inner = record s.inner { queue = vs } in
      let s' = set_inner i (recv_wake v) inner s in
      preserve i (recv_wake v) s s' refl
        (Frame-locked i (recv_wake v) s inner free refl refl
          (λ why. inr (IsPending-own wakes_senders i (recv_wake v) s' s.clients refl refl))
          (λ why. elim why [
            | inl empty ↦ ground arith
            | inr p ↦
                inr
                  (IsPending-update wakes_receivers i (recv_wake v) s s' refl (λ h. ground arith) p)
          ]))
        tt inv
  try_pop-Inv i [] s has at free inv =
      let qs = ap wakes_senders at in
      let qr = ap wakes_receivers at in
      if-holds Inv s.inner.closed _ _ (λ c. keeps_quiet i recv_failed s qs qr tt inv)
        (λ c. keeps_locking i recv_register s qs qr free (refl, (has, c)) inv)

  close-Inv :
      (i : ℕ) (s : State T)
      → s.clients i ≡ close_lock
      → s.lock ≡ none
      → Inv s
      → Inv (set_inner i close_wake_senders (record s.inner { closed = true }) s)
  unfolding set_inner Waits wakes_senders wakes_receivers
  close-Inv i s at free inv =
      let inner = record s.inner { closed = true } in
      let s' = set_inner i close_wake_senders inner s in
      preserve i close_wake_senders s s' refl
        (Frame-locked i close_wake_senders s inner free refl refl
          (λ why. inr (IsPending-own wakes_senders i close_wake_senders s' s.clients refl refl))
          (λ why. inr (IsPending-own wakes_receivers i close_wake_senders s' s.clients refl refl)))
        tt inv

  with_lock-Keeps : (l : Option ℕ) (s' : State T) → (l ≡ none → Inv s') → Keeps (with_lock l s')
  unfolding Keeps with_lock
  with_lock-Keeps none s' h = h refl
  with_lock-Keeps (some _) s' h = tt

  pub act-Inv : (i : ℕ) (s : State T) (p : Phase T) → s.clients i ≡ p → Inv s → Keeps (act i s p)
  unfolding act Keeps Waits register_sender register_receiver wake_senders wake_receivers
      wakes_senders wakes_receivers Inv
  act-Inv i s (send_begin v) at inv =
      if-holds Keeps s.inner.closed _ _
        (λ c. keeps_quiet i (send_failed v) s (ap wakes_senders at) (ap wakes_receivers at) tt inv)
        (λ c. keeps_quiet i (send_lock v) s (ap wakes_senders at) (ap wakes_receivers at) tt inv)
  act-Inv i s (send_lock v) at inv =
      with_lock-Keeps s.lock _ (λ free. try_push-Inv i v s at free inv)
  act-Inv i s (send_register v) at inv =
      let (held, full) = subst (Waits i s) at (inv i) in
      preserve i (send_parked v s.next_waker) s (register_sender i v s) refl
        (Frame-register_sender i v s held (ap wakes_senders at) (ap wakes_receivers at))
        (λ u. (mem_waiter-last s.next_waker s.inner.send_waiters, inl full)) inv
  act-Inv i s send_wake at inv =
      preserve i sent s (wake_receivers i sent s) refl
        (Frame-wake_receivers i sent s (ap wakes_senders at)) tt inv
  act-Inv i s (send_parked v n) at inv =
      if-holds Keeps (s.fired n) _ _
        (λ c. keeps_quiet i (send_begin v) s (ap wakes_senders at) (ap wakes_receivers at) tt inv)
        (λ c. tt)
  act-Inv i s recv_lock at inv =
      with_lock-Keeps s.lock _ (λ free. try_pop-Inv i s.inner.queue s refl at free inv)
  act-Inv i s recv_register at inv =
      let (held, empty) = subst (Waits i s) at (inv i) in
      preserve i (recv_parked s.next_waker) s (register_receiver i s) refl
        (Frame-register_receiver i s held (ap wakes_senders at) (ap wakes_receivers at))
        (λ u. (mem_waiter-last s.next_waker s.inner.recv_waiters, inl empty)) inv
  act-Inv i s (recv_wake v) at inv =
      preserve i (received v) s (wake_senders i (received v) s) refl
        (Frame-wake_senders i (received v) s (λ h. ground arith)) tt inv
  act-Inv i s (recv_parked n) at inv =
      if-holds Keeps (s.fired n) _ _
        (λ c. keeps_quiet i recv_lock s (ap wakes_senders at) (ap wakes_receivers at) tt inv)
        (λ c. tt)
  act-Inv i s close_lock at inv = with_lock-Keeps s.lock _ (λ free. close-Inv i s at free inv)
  act-Inv i s close_wake_senders at inv =
      preserve i close_wake_receivers s (wake_senders i close_wake_receivers s) refl
        (Frame-wake_senders i close_wake_receivers s (λ h. refl)) tt inv
  act-Inv i s close_wake_receivers at inv =
      preserve i idle s (wake_receivers i idle s) refl
        (Frame-wake_receivers i idle s (ap wakes_senders at)) tt inv
  act-Inv i s _ at inv = tt
