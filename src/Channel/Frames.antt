-- ===== src/Channel/Frames.antt =====
-- runtime/paco-runtime/src/channel.rs: what each step leaves to the other clients.
use paco.Prelude.{ℕ, ◌≡◌, refl, ◌⊎◌, true, false, none, some, arith}
use paco.Channel.{
  Inner, Phase, send_parked, recv_parked, State, update, wake_all, set_inner, wake_senders,
  wake_receivers, register_sender, register_receiver,
}
use paco.Channel.Registered.{
  mem_waiter-append, either_map, IsFull, IsEmpty, wakes_senders, wakes_receivers, IsPending, Frame,
  IsPending-update,
}

module _ {T : Type 0} where
  -- a step that changes neither the queue nor the waiters
  pub Frame-quiet :
      (i : ℕ) (p : Phase T) (s s' : State T)
      → s'.clients ≡ update i p s.clients
      → ((j : ℕ) → s.lock ≡ some j → s'.lock ≡ some j)
      → (IsFull s → IsFull s')
      → (IsEmpty s → IsEmpty s')
      → s'.fired ≡ s.fired
      → s'.inner.send_waiters ≡ s.inner.send_waiters
      → s'.inner.recv_waiters ≡ s.inner.recv_waiters
      → wakes_senders (s.clients i) ≡ false
      → wakes_receivers (s.clients i) ≡ false
      → Frame i s s'
  Frame-quiet i p s s' e held full empty fired sw rw_ qs qr = record {
    locks = λ j _ h. (held j h, full, empty);
    senders = λ n u. (rw fired at u, λ m. rw sw m);
    receivers = λ n u. (rw fired at u, λ m. rw rw_ m);
    full = λ n u m. either_map full (IsPending-update wakes_senders i p s s' e (λ h. ground arith));
    empty =
        λ n u m. either_map empty (IsPending-update wakes_receivers i p s s' e (λ h. ground arith));
  }

  pub Frame-wake_senders :
      (i : ℕ) (p : Phase T) (s : State T)
      → (wakes_receivers (s.clients i) ≡ true → wakes_receivers p ≡ true)
      → Frame i s (wake_senders i p s)
  unfolding wake_senders wake_all IsFull IsEmpty
  Frame-wake_senders i p s keeps = record {
    locks = λ j _ h. (h, λ x. x, λ x. x);
    senders = λ n u. ground arith;
    receivers = λ n u. ground arith;
    full = λ n u m. ground arith;
    empty = λ n u m.
        either_map (λ x. x)
          (IsPending-update wakes_receivers i p s (wake_senders i p s) refl keeps);
  }

  pub Frame-wake_receivers :
      (i : ℕ) (p : Phase T) (s : State T)
      → wakes_senders (s.clients i) ≡ false
      → Frame i s (wake_receivers i p s)
  unfolding wake_receivers wake_all IsFull IsEmpty
  Frame-wake_receivers i p s quiet = record {
    locks = λ j _ h. (h, λ x. x, λ x. x);
    senders = λ n u. ground arith;
    receivers = λ n u. ground arith;
    full = λ n u m.
        either_map (λ x. x)
          (IsPending-update wakes_senders i p s (wake_receivers i p s) refl (λ h. ground arith));
    empty = λ n u m. ground arith;
  }

  pub Frame-register_sender :
      (i : ℕ) (v : T) (s : State T)
      → s.lock ≡ some i
      → wakes_senders (s.clients i) ≡ false
      → wakes_receivers (s.clients i) ≡ false
      → Frame i s (register_sender i v s)
  unfolding register_sender IsFull IsEmpty
  Frame-register_sender i v s held qs qr =
      let p = send_parked v s.next_waker in
      let s' = register_sender i v s in
      record {
        locks = λ j ne h. ground arith;
        senders = λ n u. (u, mem_waiter-append n s.inner.send_waiters s.next_waker);
        receivers = λ n u. (u, λ m. m);
        full = λ n u m.
            either_map (λ x. x) (IsPending-update wakes_senders i p s s' refl (λ h. ground arith));
        empty = λ n u m.
            either_map (λ x. x)
              (IsPending-update wakes_receivers i p s s' refl (λ h. ground arith));
      }

  pub Frame-register_receiver :
      (i : ℕ) (s : State T)
      → s.lock ≡ some i
      → wakes_senders (s.clients i) ≡ false
      → wakes_receivers (s.clients i) ≡ false
      → Frame i s (register_receiver i s)
  unfolding register_receiver IsFull IsEmpty
  Frame-register_receiver i s held qs qr =
      let p = recv_parked s.next_waker in
      let s' = register_receiver i s in
      record {
        locks = λ j ne h. ground arith;
        senders = λ n u. (u, λ m. m);
        receivers = λ n u. (u, mem_waiter-append n s.inner.recv_waiters s.next_waker);
        full = λ n u m.
            either_map (λ x. x) (IsPending-update wakes_senders i p s s' refl (λ h. ground arith));
        empty = λ n u m.
            either_map (λ x. x)
              (IsPending-update wakes_receivers i p s s' refl (λ h. ground arith));
      }

  -- a step under a lock that was free, which keeps the waiters
  pub Frame-locked :
      (i : ℕ) (p : Phase T) (s : State T) (inner : Inner T)
      → s.lock ≡ none
      → inner.send_waiters ≡ s.inner.send_waiters
      → inner.recv_waiters ≡ s.inner.recv_waiters
      → (IsFull s ⊎ IsPending wakes_senders s
          → IsFull (set_inner i p inner s) ⊎ IsPending wakes_senders (set_inner i p inner s))
      → (IsEmpty s ⊎ IsPending wakes_receivers s
          → IsEmpty (set_inner i p inner s) ⊎ IsPending wakes_receivers (set_inner i p inner s))
      → Frame i s (set_inner i p inner s)
  unfolding set_inner
  Frame-locked i p s inner free sw rw_ full empty = record {
    locks = λ j ne h. ground arith;
    senders = λ n u. (u, λ m. rw sw m);
    receivers = λ n u. (u, λ m. rw rw_ m);
    full = λ n u m. full;
    empty = λ n u m. empty;
  }
