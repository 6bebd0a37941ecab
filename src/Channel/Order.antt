-- ===== src/Channel/Order.antt =====
-- runtime/paco-runtime/src/channel.rs: values are received in the order in which they are sent.
use paco.Prelude.{
  if-holds, ℕ, ◌+◌, ◌-◌, ◌≤◌, max, ◌≡◌, refl, sym, ap, ◌∙◌, subst, Option, none, some, List, [],
  ◌++◌, append_assoc, append-nil, arith, ltb, ◌==◌, if◌then◌else◌, length,
}
use paco.Channel.{
  Phase, idle, send_parked, recv_parked, close_lock, State, Call, send, recv, close, clone_sender,
  drop_sender, channel, goto, set_inner, advance, at_rest, begin_call, invoke, leave_park,
  wake_spuriously,
}
use paco.Channel.Moves.{accepts, delivers, Bounded, Moves, act-Moves}

-- The states that a state comes to, with the values sent and received on the way.
pub data Run {T : Type 0} (s₀ : State T) : List T → List T → State T → Type 0 where
  fresh : Run s₀ [] [] s₀
  called :
      (a d : List T) (s s' : State T) (i : ℕ) (call : Call T)
      → Run s₀ a d s
      → invoke i call s ≡ some s'
      → Run s₀ a d s'
  stepped :
      (a d : List T) (s s' : State T) (i : ℕ)
      → Run s₀ a d s
      → advance i s ≡ some s'
      → Run s₀
          (a ++ accepts (s.clients i) (s'.clients i))
          (d ++ delivers (s.clients i) (s'.clients i))
          s'
  chanced :
      (a d : List T) (s s' : State T) (i : ℕ)
      → Run s₀ a d s
      → wake_spuriously i s ≡ some s'
      → Run s₀ a d s'

module _ {T : Type 0} where
  -- what a new call and a spurious return from `park` leave alone
  SameQueue : State T → Option (State T) → Type 0
  SameQueue s none = Unit {0}
  SameQueue s (some s') = (s'.inner.queue ≡ s.inner.queue) × (s'.inner.capacity ≡ s.inner.capacity)

  begin_call-SameQueue : (i : ℕ) (call : Call T) (s : State T) → SameQueue s (begin_call i call s)
  unfolding SameQueue begin_call goto set_inner
  begin_call-SameQueue i (send v) s = (refl, refl)
  begin_call-SameQueue i recv s = (refl, refl)
  begin_call-SameQueue i close s = (refl, refl)
  begin_call-SameQueue i clone_sender s =
      if-holds (SameQueue s) (ltb 0 s.inner.sender_count)
        (some (set_inner i idle (record s.inner { sender_count = s.inner.sender_count + 1 }) s))
        none (λ _. (refl, refl)) (λ _. tt)
  begin_call-SameQueue i drop_sender s =
      if-holds (SameQueue s) (ltb 0 s.inner.sender_count)
        (some (
          set_inner i (if s.inner.sender_count == 1 then close_lock else idle)
            (record s.inner { sender_count = s.inner.sender_count - 1 }) s))
        none (λ _. (refl, refl)) (λ _. tt)

  invoke-SameQueue : (i : ℕ) (call : Call T) (s : State T) → SameQueue s (invoke i call s)
  unfolding SameQueue invoke
  invoke-SameQueue i call s =
      if-holds (SameQueue s) (at_rest (s.clients i)) (begin_call i call s) none
        (λ _. begin_call-SameQueue i call s) (λ _. tt)

  leave_park-SameQueue : (i : ℕ) (p : Phase T) (s : State T) → SameQueue s (leave_park i p s)
  unfolding SameQueue leave_park goto
  leave_park-SameQueue i (send_parked v n) s = (refl, refl)
  leave_park-SameQueue i (recv_parked n) s = (refl, refl)
  leave_park-SameQueue i _ s = tt

  -- the values so far: the received ones, then the queue
  IsOrdered : ℕ → State T → List T → List T → State T → Type 0
  IsOrdered capacity s₀ a d s =
      (s₀.inner.queue ++ a ≡ d ++ s.inner.queue) × (Bounded capacity s₀ → Bounded capacity s)

  IsOrdered-SameQueue :
      (capacity : ℕ) (a d : List T) (s₀ s s' : State T)
      → SameQueue s (some s')
      → IsOrdered capacity s₀ a d s
      → IsOrdered capacity s₀ a d s'
  unfolding SameQueue IsOrdered Bounded
  IsOrdered-SameQueue capacity a d s₀ s s' (same, same_capacity) (e, b) =
      (rw same e, λ b₀. (rw same_capacity (b b₀).0, rw (same, same_capacity) (b b₀).1))

  IsOrdered-Moves :
      (capacity : ℕ) (a d : List T) (s₀ s s' : State T) (i : ℕ)
      → Moves capacity i s (s.clients i) (some s')
      → IsOrdered capacity s₀ a d s
      → IsOrdered capacity s₀
          (a ++ accepts (s.clients i) (s'.clients i))
          (d ++ delivers (s.clients i) (s'.clients i))
          s'
  unfolding Moves IsOrdered
  IsOrdered-Moves capacity a d s₀ s s' i (q, at, moved, bounded) (e, b) =
      let p = s.clients i in
      let line =
        sym (append_assoc s₀.inner.queue a (accepts p q))
        ∙ ap (λ x. x ++ accepts p q) e
        ∙ append_assoc d s.inner.queue (accepts p q)
        ∙ ap (λ x. d ++ x) moved
        ∙ sym (append_assoc d (delivers p q) s'.inner.queue) in
      (
        subst (λ x. s₀.inner.queue ++ (a ++ accepts p x) ≡ (d ++ delivers p x) ++ s'.inner.queue)
            (sym at) line,
        λ b₀. bounded (b b₀),
      )

  Run-IsOrdered :
      (capacity : ℕ) (s₀ : State T) (a d : List T) (s : State T)
      → Run s₀ a d s
      → IsOrdered capacity s₀ a d s
  unfolding IsOrdered advance wake_spuriously
  Run-IsOrdered capacity s₀ _ _ _ fresh = (append-nil s₀.inner.queue, λ b. b)
  Run-IsOrdered capacity s₀ _ _ _ (called a d s s' i call r e) =
      IsOrdered-SameQueue capacity a d s₀ s s' (subst (SameQueue s) e (invoke-SameQueue i call s))
        (Run-IsOrdered capacity s₀ a d s r)
  Run-IsOrdered capacity s₀ _ _ _ (stepped a d s s' i r e) =
      IsOrdered-Moves capacity a d s₀ s s' i
        (subst (Moves capacity i s (s.clients i)) e (act-Moves capacity i s (s.clients i)))
        (Run-IsOrdered capacity s₀ a d s r)
  Run-IsOrdered capacity s₀ _ _ _ (chanced a d s s' i r e) =
      IsOrdered-SameQueue capacity a d s₀ s s'
        (subst (SameQueue s) e (leave_park-SameQueue i (s.clients i) s))
        (Run-IsOrdered capacity s₀ a d s r)

  pub Run-Bounded :
      (capacity : ℕ) (a d : List T) (s : State T)
      → Run (channel capacity) a d s
      → Bounded capacity s
  unfolding IsOrdered Bounded channel
  Run-Bounded capacity a d s r =
      (Run-IsOrdered capacity (channel capacity) a d s r).1 (refl, ground arith)

  -- Under any scheduling, the values sent into a new channel so far are the values received so far
  -- and behind them the queue, in that order: none is lost, doubled or overtaken. The queue never
  -- holds more values than the capacity, which is at least one.
  pub Run-fifo :
      (capacity : ℕ) (accepted delivered : List T) (s : State T)
      → Run (channel capacity) accepted delivered s
      → (accepted ≡ delivered ++ s.inner.queue) × (length s.inner.queue ≤ max capacity 1)
  unfolding IsOrdered Bounded channel
  Run-fifo capacity a d s r =
      let (e, bounded) = Run-IsOrdered capacity (channel capacity) a d s r in
      let (same, bound) = bounded (refl, ground arith) in (e, omega arith)

  -- what remains in the queue
  pub Run-queue :
      (s₀ : State T) (a d : List T) (s : State T)
      → Run s₀ a d s
      → s₀.inner.queue ++ a ≡ d ++ s.inner.queue
  unfolding IsOrdered
  Run-queue s₀ a d s r = (Run-IsOrdered 0 s₀ a d s r).0
