-- ===== src/Channel/Closing.antt =====
-- runtime/paco-runtime/src/channel.rs: a closed channel.
use paco.Prelude.{
  if-holds, ℕ, ◌+◌, ◌-◌, ◌≡◌, refl, sym, ap, ap₂, ◌∙◌, subst, true, Option, none, some, List, [],
  ◌∷◌, ◌++◌, append-nil, arith, ltb, ◌==◌, if◌then◌else◌,
}
use paco.Channel.{
  Phase, idle, send_begin, send_lock, send_register, send_wake, send_parked, sent, send_failed,
  recv_lock, recv_register, recv_wake, recv_parked, received, recv_failed, close_lock,
  close_wake_senders, close_wake_receivers, State, Call, send, recv, close, clone_sender,
  drop_sender, update, goto, set_inner, wake_senders, wake_receivers, try_push, register_sender,
  try_pop, register_receiver, with_lock, act, advance, at_rest, begin_call, invoke, leave_park,
  wake_spuriously,
}
use paco.Channel.Registered.{client-own}
use paco.Channel.Order.{Run, fresh, called, stepped, chanced, Run-queue}
use paco.Channel.Moves.{accepts}

module _ {T : Type 0} where
  -- a step of a closed channel: it stays closed, and accepts nothing
  IsShut : ℕ → Phase T → Option (State T) → Type 0
  IsShut i p none = Unit {0}
  IsShut i p (some s') = (s'.inner.closed ≡ true) × (accepts p (s'.clients i) ≡ [])

  IsShut-own :
      (i : ℕ) (p q : Phase T) (s s' : State T)
      → s'.clients ≡ update i q s.clients
      → s'.inner.closed ≡ true
      → accepts p q ≡ []
      → IsShut i p (some s')
  unfolding IsShut
  IsShut-own i p q s s' e c h =
      (c, subst (λ x. accepts p x ≡ []) (sym (client-own i q s.clients s'.clients e)) h)

  with_lock-IsShut :
      (i : ℕ) (p : Phase T) (l : Option ℕ) (s' : State T)
      → IsShut i p (some s')
      → IsShut i p (with_lock l s')
  unfolding with_lock IsShut
  with_lock-IsShut i p none s' h = h
  with_lock-IsShut i p (some _) s' h = tt

  try_pop-IsShut :
      (i : ℕ) (queue : List T) (s : State T)
      → s.inner.closed ≡ true
      → IsShut i recv_lock (some (try_pop i queue s))
  unfolding try_pop goto set_inner accepts
  try_pop-IsShut i (v ∷ vs) s c =
      IsShut-own i recv_lock (recv_wake v) s
        (set_inner i (recv_wake v) (record s.inner { queue = vs }) s) refl c refl
  try_pop-IsShut i [] s c =
      if-holds (λ s'. IsShut i recv_lock (some s')) s.inner.closed (goto i recv_failed s)
        (record (goto i recv_register s) { lock = some i })
        (λ _. IsShut-own i recv_lock recv_failed s (goto i recv_failed s) refl c refl)
        (λ o.
          IsShut-own i recv_lock recv_register s (record (goto i recv_register s) { lock = some i })
            refl c refl)

  try_push-IsShut :
      (i : ℕ) (v : T) (s : State T)
      → s.inner.closed ≡ true
      → IsShut i (send_lock v) (some (try_push i v s))
  unfolding try_push goto set_inner accepts
  try_push-IsShut i v s c =
      if-holds (λ s'. IsShut i (send_lock v) (some s')) s.inner.closed (goto i (send_failed v) s) _
        (λ _. IsShut-own i (send_lock v) (send_failed v) s (goto i (send_failed v) s) refl c refl)
        (λ o. ground arith)

  act-IsShut : (i : ℕ) (s : State T) (p : Phase T) → s.inner.closed ≡ true → IsShut i p (act i s p)
  unfolding act accepts IsShut goto set_inner wake_senders wake_receivers register_sender
      register_receiver try_push
  act-IsShut i s (send_begin v) c =
      if-holds (IsShut i (send_begin v)) s.inner.closed (some (goto i (send_failed v) s))
        (some (goto i (send_lock v) s))
        (λ _. IsShut-own i (send_begin v) (send_failed v) s (goto i (send_failed v) s) refl c refl)
        (λ _. IsShut-own i (send_begin v) (send_lock v) s (goto i (send_lock v) s) refl c refl)
  act-IsShut i s (send_lock v) c =
      with_lock-IsShut i (send_lock v) s.lock (try_push i v s) (try_push-IsShut i v s c)
  act-IsShut i s (send_register v) c =
      IsShut-own i (send_register v) (send_parked v s.next_waker) s (register_sender i v s) refl c
        refl
  act-IsShut i s send_wake c = IsShut-own i send_wake sent s (wake_receivers i sent s) refl c refl
  act-IsShut i s (send_parked v n) c =
      if-holds (IsShut i (send_parked v n)) (s.fired n) (some (goto i (send_begin v) s)) none
        (λ _. IsShut-own i (send_parked v n) (send_begin v) s (goto i (send_begin v) s) refl c refl)
        (λ _. tt)
  act-IsShut i s recv_lock c =
      with_lock-IsShut i recv_lock s.lock (try_pop i s.inner.queue s)
        (try_pop-IsShut i s.inner.queue s c)
  act-IsShut i s recv_register c =
      IsShut-own i recv_register (recv_parked s.next_waker) s (register_receiver i s) refl c refl
  act-IsShut i s (recv_wake v) c =
      IsShut-own i (recv_wake v) (received v) s (wake_senders i (received v) s) refl c refl
  act-IsShut i s (recv_parked n) c =
      if-holds (IsShut i (recv_parked n)) (s.fired n) (some (goto i recv_lock s)) none
        (λ _. IsShut-own i (recv_parked n) recv_lock s (goto i recv_lock s) refl c refl) (λ _. tt)
  act-IsShut i s close_lock c =
      let s' = set_inner i close_wake_senders (record s.inner { closed = true }) s in
      with_lock-IsShut i close_lock s.lock s'
        (IsShut-own i close_lock close_wake_senders s s' refl refl refl)
  act-IsShut i s close_wake_senders c =
      IsShut-own i close_wake_senders close_wake_receivers s (wake_senders i close_wake_receivers s)
        refl c refl
  act-IsShut i s close_wake_receivers c =
      IsShut-own i close_wake_receivers idle s (wake_receivers i idle s) refl c refl
  act-IsShut i s _ c = tt

  SameClosed : State T → Option (State T) → Type 0
  SameClosed s none = Unit {0}
  SameClosed s (some s') = s'.inner.closed ≡ s.inner.closed

  begin_call-SameClosed : (i : ℕ) (call : Call T) (s : State T) → SameClosed s (begin_call i call s)
  unfolding SameClosed begin_call goto set_inner
  begin_call-SameClosed i (send v) s = refl
  begin_call-SameClosed i recv s = refl
  begin_call-SameClosed i close s = refl
  begin_call-SameClosed i clone_sender s =
      if-holds (SameClosed s) (ltb 0 s.inner.sender_count)
        (some (set_inner i idle (record s.inner { sender_count = s.inner.sender_count + 1 }) s))
        none (λ _. refl) (λ _. tt)
  begin_call-SameClosed i drop_sender s =
      if-holds (SameClosed s) (ltb 0 s.inner.sender_count)
        (some (
          set_inner i (if s.inner.sender_count == 1 then close_lock else idle)
            (record s.inner { sender_count = s.inner.sender_count - 1 }) s))
        none (λ _. refl) (λ _. tt)

  invoke-SameClosed : (i : ℕ) (call : Call T) (s : State T) → SameClosed s (invoke i call s)
  unfolding SameClosed invoke
  invoke-SameClosed i call s =
      if-holds (SameClosed s) (at_rest (s.clients i)) (begin_call i call s) none
        (λ _. begin_call-SameClosed i call s) (λ _. tt)

  leave_park-SameClosed : (i : ℕ) (p : Phase T) (s : State T) → SameClosed s (leave_park i p s)
  unfolding SameClosed leave_park goto
  leave_park-SameClosed i (send_parked v n) s = refl
  leave_park-SameClosed i (recv_parked n) s = refl
  leave_park-SameClosed i _ s = tt

  Run-closed :
      (s₀ : State T) (a d : List T) (s : State T)
      → s₀.inner.closed ≡ true
      → Run s₀ a d s
      → (s.inner.closed ≡ true) × (a ≡ [])
  unfolding advance wake_spuriously IsShut SameClosed
  Run-closed s₀ _ _ _ c fresh = (c, refl)
  Run-closed s₀ _ _ _ c (called a d s s' i call r e) =
      let (c', none_yet) = Run-closed s₀ a d s c r in
      (subst (SameClosed s) e (invoke-SameClosed i call s) ∙ c', none_yet)
  Run-closed s₀ _ _ _ c (stepped a d s s' i r e) =
      let (c', none_yet) = Run-closed s₀ a d s c r in
      let (c'', nothing) = subst (IsShut i (s.clients i)) e (act-IsShut i s (s.clients i) c') in
      (c'', ap₂ (λ x y. x ++ y) none_yet nothing)
  Run-closed s₀ _ _ _ c (chanced a d s s' i r e) =
      let (c', none_yet) = Run-closed s₀ a d s c r in
      (subst (SameClosed s) e (leave_park-SameClosed i (s.clients i) s) ∙ c', none_yet)

  -- A closed channel stays closed under any scheduling and accepts no further value, also from
  -- a `send` that had begun before; what is received from then on is, in order, what was in the
  -- queue, less what is still in it.
  pub closed-final :
      (s₀ : State T) (accepted delivered : List T) (s : State T)
      → s₀.inner.closed ≡ true
      → Run s₀ accepted delivered s
      → (s.inner.closed ≡ true) × (accepted ≡ []) × (s₀.inner.queue ≡ delivered ++ s.inner.queue)
  closed-final s₀ a d s c r =
      let (c', nothing) = Run-closed s₀ a d s c r in
      (
        c',
        nothing,
        sym (append-nil s₀.inner.queue)
            ∙ ap (λ x. s₀.inner.queue ++ x) (sym nothing)
            ∙ Run-queue s₀ a d s r,
      )
