-- ===== src/Tests/Joins.antt =====
-- Runs of runtime/paco-runtime/src/join.rs: one client waits for the result of another.
use paco.Prelude.{ℕ, ◌≡◌, refl, inl, inr, true, Option, none, some, [], ◌∷◌, Option-cases}
use paco.Join.{
  joined, State, new_slot, join, complete, advance, Reaches, start, by_join, by_complete, by_step,
  by_chance, wake_spuriously,
}
use paco.Join.Told.{tells, join_parked-IsTold}

abbrev or_same : Option (State ℕ) → State ℕ → State ℕ
or_same (some s') s = s'
or_same none s = s

abbrev after_step : ℕ → State ℕ → State ℕ
after_step i s = or_same (advance i s) s

-- client 0 is parked in `join`, and client 1 has set the result 7
abbrev completing : State ℕ
completing = after_step 1 (
    or_same (complete 1 7 (after_step 0 (after_step 0 (or_same (join 0 new_slot) new_slot))))
      new_slot)

Reaches-step : (i : ℕ) (s : State ℕ) → Reaches s → Reaches (after_step i s)
Reaches-step i s r = elim (Option-cases (advance i s)) [
  | inl e ↦ rw e r
  | inr (s', e) ↦ rw e (by_step s s' i r e)
]

Reaches-completing : Reaches completing
unfolding join complete advance new_slot
Reaches-completing = Reaches-step 1 _ (
    by_complete (after_step 0 (after_step 0 (or_same (join 0 new_slot) new_slot))) _ 1 7
      (Reaches-step 0 _ (Reaches-step 0 _ (by_join new_slot _ 0 start refl))) refl)

join_parked-IsTold_example :
    (completing.slot.waiters ≡ []) × ((k : ℕ) × (tells 0 (completing.clients k) ≡ true))
unfolding join complete advance new_slot
join_parked-IsTold_example = join_parked-IsTold completing 7 0 0 Reaches-completing refl refl refl

-- The waiter is woken, and takes the result.
result_arrives :
    (after_step 0 (after_step 0 (after_step 0 (after_step 1 completing)))).clients 0 ≡ joined 7
unfolding join complete advance new_slot
result_arrives = refl

-- A client whose `park` returns by chance registers again, with a new waker.
abbrev woken : State ℕ
woken =
    let parked = after_step 0 (after_step 0 (or_same (join 0 new_slot) new_slot)) in
    after_step 0 (after_step 0 (or_same (wake_spuriously 0 parked) parked))

woken_registers_again : woken.slot.waiters ≡ 0 ∷ 1 ∷ []
unfolding join advance wake_spuriously new_slot
woken_registers_again = refl

Reaches-woken : Reaches woken
unfolding join advance wake_spuriously new_slot
Reaches-woken = Reaches-step 0 _ (
    Reaches-step 0 _ (
      by_chance (after_step 0 (after_step 0 (or_same (join 0 new_slot) new_slot))) _ 0
        (Reaches-step 0 _ (Reaches-step 0 _ (by_join new_slot _ 0 start refl))) refl))
