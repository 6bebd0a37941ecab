-- ===== src/Join.antt =====
-- runtime/paco-runtime/src/join.rs: the slot in which a task leaves its result. A step is a region
-- under the slot's lock or one operation outside it; wakers are numbered as in Channel.
pub mod Told
use paco.Prelude.{
  ℕ, zero, suc, ◌+◌, ◌-◌, ◌*◌, ◌/◌, ◌%◌, ◌^◌, ◌≤◌, ◌<◌, max, min, compare, Ordering, ◌≡◌, refl, sym,
  ap, ap₂, ◌∙◌, subst, fun_ext, ◌≡⟨◌⟩◌, ◌∎, ◌≢◌, ◌↔◌, ◌⊎◌, inl, inr, ite, dite, if_pos, if_neg,
  Bool, true, false, not, ◌&&◌, ◌||◌, Option, none, some, List, [], ◌∷◌, ◌++◌, map, append_assoc,
  append-nil, arith, dec_lt, dec_le, ℕ_discrete, ltb, leb, ◌==◌, if◌then◌else◌, ltb→lt, lt→ltb,
  leb→le, ==_iff, ==_refl, tests, Bool-cases, Option-cases, &&-split, ||-split, ||-right, ||-left,
  &&-both, ◌>>=◌, >>=-eq-some, length, get_elem?, set, length-append, take, drop, replicate,
}
use paco.Channel.{update}

pub data Phase (R : Type 0) : Type 0 where
  idle : Phase R
  -- `join`: before `Notify::current`, before the lock, in `park`, and the return
  join_begin : Phase R
  join_lock : ℕ → Phase R
  join_parked : ℕ → Phase R
  joined : R → Phase R
  -- `complete`: before the lock, and with the waiters that are still to be notified
  complete_lock : R → Phase R
  complete_wake : List ℕ → Phase R

pub record Slot (R : Type 0) : Type 0 where
  pub value : Option R
  pub waiters : List ℕ

pub record State (R : Type 0) : Type 0 where
  pub slot : Slot R
  pub fired : ℕ → Bool
  pub next_waker : ℕ
  pub clients : ℕ → Phase R

module _ {R : Type 0} where
  unfoldable pub new_slot : State R
  new_slot = record {
    slot = record { value = none; waiters = [] };
    fired = λ n. false;
    next_waker = 0;
    clients = λ i. idle;
  }

  unfoldable pub goto : ℕ → Phase R → State R → State R
  unfolding update
  goto i p s = record s { clients = update i p s.clients }

  -- `Notify::current`: a new waker
  unfoldable pub new_notify : ℕ → State R → State R
  unfolding update
  new_notify i s = record s {
    next_waker = s.next_waker + 1;
    clients = update i (join_lock s.next_waker) s.clients;
  }

  -- the locked region of `join`
  unfoldable pub take_or_wait : ℕ → ℕ → Option R → State R → State R
  unfolding update
  take_or_wait i n (some result) s = record s {
    slot = record s.slot { value = none };
    clients = update i (joined result) s.clients;
  }
  take_or_wait i n none s = record s {
    slot = record s.slot { waiters = s.slot.waiters ++ n ∷ [] };
    clients = update i (join_parked n) s.clients;
  }

  -- the locked region of `complete`
  unfoldable pub set_result : ℕ → R → State R → State R
  unfolding update
  set_result i result s = record s {
    slot = record { value = some result; waiters = [] };
    clients = update i (complete_wake s.slot.waiters) s.clients;
  }

  unfoldable pub notify : ℕ → ℕ → List ℕ → State R → State R
  unfolding update
  notify i n ns s = record s {
    fired = λ m. s.fired m || (m == n);
    clients = update i (complete_wake ns) s.clients;
  }

  unfoldable pub act : ℕ → State R → Phase R → Option (State R)
  unfolding goto new_notify take_or_wait set_result notify
  act i s join_begin = some (new_notify i s)
  act i s (join_lock n) = some (take_or_wait i n s.slot.value s)
  act i s (join_parked n) = if s.fired n then some (goto i join_begin s) else none
  act i s (complete_lock result) = some (set_result i result s)
  act i s (complete_wake (n ∷ ns)) = some (notify i n ns s)
  act i s (complete_wake []) = some (goto i idle s)
  act i s _ = none

  unfoldable pub at_rest : Phase R → Bool
  at_rest idle = true
  at_rest (joined _) = true
  at_rest _ = false

  unfoldable pub join : ℕ → State R → Option (State R)
  unfolding at_rest goto
  join i s = if at_rest (s.clients i) then some (goto i join_begin s) else none

  unfoldable pub complete : ℕ → R → State R → Option (State R)
  unfolding at_rest goto
  complete i result s =
      if at_rest (s.clients i) then some (goto i (complete_lock result) s) else none

  unfoldable pub advance : ℕ → State R → Option (State R)
  unfolding act
  advance i s = act i s (s.clients i)

  unfoldable pub leave_park : ℕ → State R → Phase R → Option (State R)
  unfolding goto
  leave_park i s (join_parked n) = some (goto i join_begin s)
  leave_park i s _ = none

  -- `park` of a thread, not of a task, may return without a notification.
  unfoldable pub wake_spuriously : ℕ → State R → Option (State R)
  unfolding leave_park
  wake_spuriously i s = leave_park i s (s.clients i)

-- The states that a new slot comes to, under any scheduling of its clients.
pub data Reaches {R : Type 0} : State R → Type 0 where
  start : Reaches new_slot
  by_join : (s s' : State R) (i : ℕ) → Reaches s → join i s ≡ some s' → Reaches s'
  by_complete :
      (s s' : State R) (i : ℕ) (result : R) → Reaches s → complete i result s ≡ some s' → Reaches s'
  by_step : (s s' : State R) (i : ℕ) → Reaches s → advance i s ≡ some s' → Reaches s'
  by_chance : (s s' : State R) (i : ℕ) → Reaches s → wake_spuriously i s ≡ some s' → Reaches s'
