-- ===== src/Join/Told.antt =====
-- runtime/paco-runtime/src/join.rs: who waits for a result is told of it.
use paco.Prelude.{
  if-holds, ℕ, ◌≡◌, refl, sym, ap, ◌∙◌, subst, ◌⊎◌, inl, inr, Bool, true, false, Option, none, some,
  List, [], ◌∷◌, ◌++◌, arith, ◌==◌, ==_iff, ==_refl, Bool-cases,
}
use paco.Channel.{update, mem_waiter}
use paco.Channel.Registered.{mem_waiter-append, mem_waiter-last, either_map}
use paco.Join.{
  Phase, idle, join_begin, join_lock, join_parked, joined, complete_lock, complete_wake, State,
  new_slot, goto, new_notify, take_or_wait, set_result, notify, act, at_rest, join, complete,
  advance, leave_park, wake_spuriously, Reaches, start, by_join, by_complete, by_step, by_chance,
}

module _ {R : Type 0} where
  -- a client that is about to notify a waker
  unfoldable pub tells : ℕ → Phase R → Bool
  unfolding mem_waiter
  tells n (complete_wake ns) = mem_waiter n ns
  tells n _ = false

  unfoldable pub IsTold : ℕ → State R → Type 0
  IsTold n s = (mem_waiter n s.slot.waiters ≡ true) ⊎ ((k : ℕ) × (tells n (s.clients k) ≡ true))

  -- A slot with a value has no waiters, and who is parked is registered or about to be notified.
  Inv : State R → Type 0
  Inv s =
      ((result : R) → s.slot.value ≡ some result → s.slot.waiters ≡ [])
      × ((j n : ℕ) → s.clients j ≡ join_parked n → s.fired n ≡ false → IsTold n s)

  teller-update :
      (n i : ℕ) (p : Phase R) (c : ℕ → Phase R)
      → (tells n (c i) ≡ true → tells n p ≡ true)
      → (k : ℕ) × (tells n (c k) ≡ true)
      → (k : ℕ) × (tells n (update i p c k) ≡ true)
  unfolding update
  teller-update n i p c keeps (k, h) = elim (Bool-cases (i == k)) [
    | inl same ↦ (i, rw (==_refl i) (keeps (rw ((==_iff i k).0 same) h)))
    | inr other ↦ (k, rw other h)
  ]

  preserve :
      (i : ℕ) (p : Phase R) (s s' : State R)
      → s'.clients ≡ update i p s.clients
      → ((n : ℕ) → p ≡ join_parked n → s'.fired n ≡ false → IsTold n s')
      → ((n : ℕ) → s'.fired n ≡ false → (s.fired n ≡ false) × (IsTold n s → IsTold n s'))
      → ((result : R) → s'.slot.value ≡ some result → s'.slot.waiters ≡ [])
      → Inv s
      → Inv s'
  unfolding Inv update
  preserve i p s s' e own others empty (_, inv) = (
    empty,
    λ j n at u. elim (Bool-cases (i == j)) [
      | inl same ↦ own n (sym (rw (e, same) refl) ∙ at) u
      | inr other ↦
          (let (u', keeps) = others n u in keeps (inv j n (sym (rw (e, other) refl) ∙ at) u'))
    ],
  )

  Keeps : Option (State R) → Type 0
  Keeps none = Unit {0}
  Keeps (some s') = Inv s'

  -- a step that changes neither the slot nor a waker
  keeps_quiet :
      (i : ℕ) (p : Phase R) (s s' : State R)
      → s'.clients ≡ update i p s.clients
      → s'.slot ≡ s.slot
      → s'.fired ≡ s.fired
      → ((n : ℕ) → tells n (s.clients i) ≡ false)
      → ((n : ℕ) → p ≡ join_parked n → IsTold n s')
      → Inv s
      → Inv s'
  unfolding IsTold Inv
  keeps_quiet i p s s' e slot fired quiet own inv =
      preserve i p s s' e (λ n at u. own n at)
        (λ n u. (
          rw fired at u,
          λ told.
              rw (slot, e)
                (either_map (λ m. m) (teller-update n i p s.clients (λ h. ground (arith, quiet n)))
                  told),
        ))
        (λ result h. rw slot (inv.0 result (rw slot at h))) inv

  parked_waker : Phase R → ℕ
  parked_waker (join_parked n) = n
  parked_waker _ = 0

  take_or_wait-Inv :
      (i n : ℕ) (value : Option R) (s : State R)
      → s.slot.value ≡ value
      → s.clients i ≡ join_lock n
      → Inv s
      → Inv (take_or_wait i n value s)
  unfolding take_or_wait IsTold Inv tells parked_waker
  take_or_wait-Inv i n (some result) s has at inv =
      preserve i (joined result) s (take_or_wait i n (some result) s) refl (λ m e u. ground arith)
        (λ m u. (
          u,
          either_map (λ x. x) (teller-update m i (joined result) s.clients (λ h. ground arith)),
        ))
        (λ r h. ground arith) inv
  take_or_wait-Inv i n none s has at inv =
      preserve i (join_parked n) s (take_or_wait i n none s) refl
        (λ m e u. inl (
          subst (λ k. mem_waiter k (s.slot.waiters ++ n ∷ []) ≡ true) (ap parked_waker e)
            (mem_waiter-last n s.slot.waiters)))
        (λ m u. (
          u,
          either_map (mem_waiter-append m s.slot.waiters n)
              (teller-update m i (join_parked n) s.clients (λ h. ground arith)),
        ))
        (λ r h. ground arith) inv

  set_result-Inv :
      (i : ℕ) (result : R) (s : State R)
      → s.clients i ≡ complete_lock result
      → Inv s
      → Inv (set_result i result s)
  unfolding set_result IsTold Inv tells update
  set_result-Inv i result s at inv =
      preserve i (complete_wake s.slot.waiters) s (set_result i result s) refl
        (λ m e u. ground arith)
        (λ m u. (
          u,
          λ told. elim told [
            | inl waits ↦ inr (i, rw (==_refl i) waits)
            | inr other ↦ inr (
                teller-update m i (complete_wake s.slot.waiters) s.clients (λ h. ground arith)
                  other)
          ],
        ))
        (λ r h. refl) inv

  notify-Inv :
      (i n : ℕ) (ns : List ℕ) (s : State R)
      → s.clients i ≡ complete_wake (n ∷ ns)
      → Inv s
      → Inv (notify i n ns s)
  unfolding notify IsTold Inv tells mem_waiter
  notify-Inv i n ns s at inv =
      preserve i (complete_wake ns) s (notify i n ns s) refl (λ m e u. ground arith)
        (λ m u. (
          ground arith,
          either_map (λ x. x)
              (teller-update m i (complete_wake ns) s.clients
                (λ h. let h' = subst (λ q. tells m q ≡ true) at h in ground arith)),
        ))
        inv.0 inv

  act-Inv : (i : ℕ) (s : State R) (p : Phase R) → s.clients i ≡ p → Inv s → Keeps (act i s p)
  unfolding act Keeps tells goto new_notify mem_waiter
  act-Inv i s join_begin at inv =
      keeps_quiet i (join_lock s.next_waker) s (new_notify i s) refl refl refl
        (λ n. ap (tells n) at) (λ n e. ground arith) inv
  act-Inv i s (join_lock n) at inv = take_or_wait-Inv i n s.slot.value s refl at inv
  act-Inv i s (join_parked n) at inv =
      if-holds Keeps (s.fired n) (some (goto i join_begin s)) none
        (λ _.
          keeps_quiet i join_begin s (goto i join_begin s) refl refl refl (λ n. ap (tells n) at)
            (λ n e. ground arith) inv)
        (λ _. tt)
  act-Inv i s (complete_lock result) at inv = set_result-Inv i result s at inv
  act-Inv i s (complete_wake (n ∷ ns)) at inv = notify-Inv i n ns s at inv
  act-Inv i s (complete_wake []) at inv =
      keeps_quiet i idle s (goto i idle s) refl refl refl (λ n. ap (tells n) at)
        (λ n e. ground arith) inv
  act-Inv i s _ at inv = tt

  leave_park-Inv :
      (i : ℕ) (s : State R) (p : Phase R) → s.clients i ≡ p → Inv s → Keeps (leave_park i s p)
  unfolding leave_park Keeps tells goto
  leave_park-Inv i s (join_parked n) at inv =
      keeps_quiet i join_begin s (goto i join_begin s) refl refl refl (λ m. ap (tells m) at)
        (λ m e. ground arith) inv
  leave_park-Inv i s _ at inv = tt

  at_rest-quiet : (n : ℕ) (p : Phase R) → at_rest p ≡ true → tells n p ≡ false
  unfolding at_rest tells
  at_rest-quiet n (complete_wake _) h = ground arith
  at_rest-quiet n _ h = refl

  reaches-Inv : (s : State R) → Reaches s → Inv s
  unfolding Keeps advance wake_spuriously Inv new_slot join complete goto
  reaches-Inv _ start = (λ r h. refl, λ j n at u. ground arith)
  reaches-Inv _ (by_join s s' i r e) = subst Keeps e (
      if-holds Keeps (at_rest (s.clients i)) (some (goto i join_begin s)) none
        (λ rest.
          keeps_quiet i join_begin s (goto i join_begin s) refl refl refl
            (λ n. at_rest-quiet n (s.clients i) rest) (λ n e. ground arith) (reaches-Inv s r))
        (λ _. tt))
  reaches-Inv _ (by_complete s s' i result r e) = subst Keeps e (
      if-holds Keeps (at_rest (s.clients i)) (some (goto i (complete_lock result) s)) none
        (λ rest.
          keeps_quiet i (complete_lock result) s (goto i (complete_lock result) s) refl refl refl
            (λ n. at_rest-quiet n (s.clients i) rest) (λ n e. ground arith) (reaches-Inv s r))
        (λ _. tt))
  reaches-Inv _ (by_step s s' i r e) =
      subst Keeps e (act-Inv i s (s.clients i) refl (reaches-Inv s r))
  reaches-Inv _ (by_chance s s' i r e) =
      subst Keeps e (leave_park-Inv i s (s.clients i) refl (reaches-Inv s r))

  -- In every state that a slot comes to in which it holds a result and a client is parked in `join`
  -- with a waker that is not fired, no waiter is registered, and the waker is among those that some
  -- client in `complete` is still to notify.
  pub join_parked-IsTold :
      (s : State R) (result : R) (j n : ℕ)
      → Reaches s
      → s.slot.value ≡ some result
      → s.clients j ≡ join_parked n
      → s.fired n ≡ false
      → (s.slot.waiters ≡ []) × ((k : ℕ) × (tells n (s.clients k) ≡ true))
  unfolding Inv IsTold mem_waiter
  join_parked-IsTold s result j n r has at u =
      let (empty, told) = reaches-Inv s r in
      let none_left = empty result has in
      (
        none_left,
        elim (told j n at u) [
          | inl waits ↦
              (let absurd = subst (λ ws. mem_waiter n ws ≡ true) none_left waits in ground arith)
          | inr teller ↦ teller
        ],
      )
