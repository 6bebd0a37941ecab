-- ===== src/Channel/Registered.antt =====
-- runtime/paco-runtime/src/channel.rs: what a registered client relies on.
use paco.Prelude.{
  ℕ, ◌≤◌, ◌≡◌, refl, sym, subst, ◌⊎◌, inl, inr, Bool, true, false, some, List, [], ◌∷◌, ◌++◌, arith,
  ◌==◌, ==_iff, ==_refl, Bool-cases, length,
}
use paco.Channel.{
  Phase, send_register, send_wake, send_parked, recv_register, recv_wake, recv_parked,
  close_wake_senders, close_wake_receivers, State, update, mem_waiter,
}

pub mem_waiter-append :
    (n : ℕ) (ms : List ℕ) (m : ℕ) → mem_waiter n ms ≡ true → mem_waiter n (ms ++ m ∷ []) ≡ true
unfolding mem_waiter
mem_waiter-append n [] m h = ground arith
mem_waiter-append n (k ∷ ks) m h = ground (arith, mem_waiter-append n ks m)

pub mem_waiter-last : (n : ℕ) (ms : List ℕ) → mem_waiter n (ms ++ n ∷ []) ≡ true
unfolding mem_waiter
mem_waiter-last n [] = ground arith
mem_waiter-last n (k ∷ ks) = ground (arith, mem_waiter-last n ks)

pub either_map : {A B C D : Type 0} → (A → C) → (B → D) → A ⊎ B → C ⊎ D
either_map f g (inl a) = inl (f a)
either_map f g (inr b) = inr (g b)

module _ {T : Type 0} where
  unfoldable pub IsFull : State T → Type 0
  IsFull s = (s.inner.capacity ≤ length s.inner.queue) × (s.inner.closed ≡ false)

  unfoldable pub IsEmpty : State T → Type 0
  IsEmpty s = (s.inner.queue ≡ []) × (s.inner.closed ≡ false)

  -- a client that is about to wake every registered sender
  unfoldable pub wakes_senders : Phase T → Bool
  wakes_senders (recv_wake _) = true
  wakes_senders close_wake_senders = true
  wakes_senders _ = false

  unfoldable pub wakes_receivers : Phase T → Bool
  wakes_receivers send_wake = true
  wakes_receivers close_wake_senders = true
  wakes_receivers close_wake_receivers = true
  wakes_receivers _ = false

  unfoldable pub IsPending : (Phase T → Bool) → State T → Type 0
  IsPending f s = (j : ℕ) × (f (s.clients j) ≡ true)

  -- what a registered client may rely on
  unfoldable pub Waits : ℕ → State T → Phase T → Type 0
  unfolding IsFull IsEmpty IsPending
  Waits i s (send_register v) = (s.lock ≡ some i) × IsFull s
  Waits i s recv_register = (s.lock ≡ some i) × IsEmpty s
  Waits i s (send_parked v n) =
      s.fired n ≡ false
      → (mem_waiter n s.inner.send_waiters ≡ true) × (IsFull s ⊎ IsPending wakes_senders s)
  Waits i s (recv_parked n) =
      s.fired n ≡ false
      → (mem_waiter n s.inner.recv_waiters ≡ true) × (IsEmpty s ⊎ IsPending wakes_receivers s)
  Waits i s _ = Unit {0}

  -- what a step of client `i` leaves to the other clients
  pub record Frame (i : ℕ) (s s' : State T) : Type 0 where
    pub locks :
        (j : ℕ)
        → (i == j) ≡ false
        → s.lock ≡ some j
        → (s'.lock ≡ some j) × (IsFull s → IsFull s') × (IsEmpty s → IsEmpty s')
    pub senders :
        (n : ℕ)
        → s'.fired n ≡ false
        → (s.fired n ≡ false)
          × (mem_waiter n s.inner.send_waiters ≡ true → mem_waiter n s'.inner.send_waiters ≡ true)
    pub receivers :
        (n : ℕ)
        → s'.fired n ≡ false
        → (s.fired n ≡ false)
          × (mem_waiter n s.inner.recv_waiters ≡ true → mem_waiter n s'.inner.recv_waiters ≡ true)
    pub full :
        (n : ℕ)
        → s'.fired n ≡ false
        → mem_waiter n s.inner.send_waiters ≡ true
        → IsFull s ⊎ IsPending wakes_senders s
        → IsFull s' ⊎ IsPending wakes_senders s'
    pub empty :
        (n : ℕ)
        → s'.fired n ≡ false
        → mem_waiter n s.inner.recv_waiters ≡ true
        → IsEmpty s ⊎ IsPending wakes_receivers s
        → IsEmpty s' ⊎ IsPending wakes_receivers s'

  pub Frame-Waits :
      (i : ℕ) (s s' : State T)
      → Frame i s s'
      → (j : ℕ) → (i == j) ≡ false
      → (p : Phase T) → Waits j s p
      → Waits j s' p
  unfolding Waits IsFull IsEmpty
  Frame-Waits i s s' f j ne (send_register v) (held, full) =
      let (l, keeps, _) = f.locks j ne held in (l, keeps full)
  Frame-Waits i s s' f j ne recv_register (held, empty) =
      let (l, _, keeps) = f.locks j ne held in (l, keeps empty)
  Frame-Waits i s s' f j ne (send_parked v n) h = λ unfired.
      let (u, keeps) = f.senders n unfired in
      let (m, why) = h u in (keeps m, f.full n unfired m why)
  Frame-Waits i s s' f j ne (recv_parked n) h = λ unfired.
      let (u, keeps) = f.receivers n unfired in
      let (m, why) = h u in (keeps m, f.empty n unfired m why)
  Frame-Waits i s s' f j ne _ h = tt

  unfoldable pub Inv : State T → Type 0
  Inv s = (j : ℕ) → Waits j s (s.clients j)

  pub client-own : (i : ℕ) (p : Phase T) (c c' : ℕ → Phase T) → c' ≡ update i p c → c' i ≡ p
  unfolding update
  client-own i p c c' e = rw (e, ==_refl i) refl

  client-other :
      (i j : ℕ) (p : Phase T) (c c' : ℕ → Phase T)
      → c' ≡ update i p c
      → (i == j) ≡ false
      → c j ≡ c' j
  unfolding update
  client-other i j p c c' e other = rw (e, other) refl

  pub preserve :
      (i : ℕ) (p : Phase T) (s s' : State T)
      → s'.clients ≡ update i p s.clients
      → Frame i s s'
      → Waits i s' p
      → Inv s
      → Inv s'
  unfolding Inv update
  preserve i p s s' e f own inv j = elim (Bool-cases (i == j)) [
    | inl same ↦
        subst (λ k. Waits k s' (s'.clients k)) ((==_iff i j).0 same)
          (subst (Waits i s') (sym (client-own i p s.clients s'.clients e)) own)
    | inr other ↦
        subst (Waits j s') (client-other i j p s.clients s'.clients e other)
          (Frame-Waits i s s' f j other (s.clients j) (inv j))
  ]

  pub IsPending-update :
      (f : Phase T → Bool) (i : ℕ) (p : Phase T) (s s' : State T)
      → s'.clients ≡ update i p s.clients
      → (f (s.clients i) ≡ true → f p ≡ true)
      → IsPending f s
      → IsPending f s'
  unfolding IsPending update
  IsPending-update f i p s s' e keeps (j, h) = elim (Bool-cases (i == j)) [
    | inl same ↦ (i, rw (e, ==_refl i) (keeps (rw ((==_iff i j).0 same) h)))
    | inr other ↦ (j, rw (e, other) h)
  ]

  pub IsPending-own :
      (f : Phase T → Bool) (i : ℕ) (p : Phase T) (s' : State T) (c : ℕ → Phase T)
      → s'.clients ≡ update i p c
      → f p ≡ true
      → IsPending f s'
  unfolding IsPending update
  IsPending-own f i p s' c e h = (i, rw (e, ==_refl i) h)
