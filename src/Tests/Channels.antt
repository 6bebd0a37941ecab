-- ===== src/Tests/Channels.antt =====
-- Runs of runtime/paco-runtime/src/channel.rs: two clients and a channel of one value.
use paco.Prelude.{
  false, ◌↔◌, ℕ, ◌≤◌, max, ◌≡◌, refl, ◌⊎◌, inl, inr, true, Option, none, some, List, [], ◌∷◌, ◌++◌,
  Option-cases, length,
}
use paco.Channel.{
  send_is_ready, recv_is_ready, try_push, try_pop, send_wake, recv_register, drop_sender,
  send_parked, State, Call, send, recv, close, mem_waiter, channel, advance, invoke, Reaches, start,
  by_call, by_step,
}
use paco.Channel.Registered.{IsFull, IsEmpty, wakes_senders, wakes_receivers, IsPending}
use paco.Channel.Waking.{send_parked-waits, recv_parked-waits}
use paco.Channel.Order.{Run, fresh, called, stepped, Run-fifo}
use paco.Channel.Moves.{accepts, delivers}
use paco.Channel.Closing.{closed-final}
use paco.Channel.Progress.{parked-IsPending, is_ready_iff}
use paco.Channel.Senders.{is_closing, last_sender-closes}

abbrev or_same : Option (State ℕ) → State ℕ → State ℕ
or_same (some s') s = s'
or_same none s = s

abbrev after_call : ℕ → Call ℕ → State ℕ → State ℕ
after_call i call s = or_same (invoke i call s) s

abbrev after_step : ℕ → State ℕ → State ℕ
after_step i s = or_same (advance i s) s

-- client 0 has sent 7
abbrev sent_one : State ℕ
sent_one = after_step 0 (after_step 0 (after_step 0 (after_call 0 (send 7) (channel 1))))

-- client 0 is parked in its second call
abbrev blocked : State ℕ
blocked = after_step 0 (after_step 0 (after_step 0 (after_call 0 (send 8) sent_one)))

-- client 1 has taken 7 and is about to wake the sender
abbrev taken_one : State ℕ
taken_one = after_step 1 (after_call 1 recv blocked)

Reaches-call :
    (c i : ℕ) (call : Call ℕ) (s : State ℕ) → Reaches c s → Reaches c (after_call i call s)
Reaches-call c i call s r = elim (Option-cases (invoke i call s)) [
  | inl e ↦ rw e r
  | inr (s', e) ↦ rw e (by_call s s' i call r e)
]

Reaches-step : (c i : ℕ) (s : State ℕ) → Reaches c s → Reaches c (after_step i s)
Reaches-step c i s r = elim (Option-cases (advance i s)) [
  | inl e ↦ rw e r
  | inr (s', e) ↦ rw e (by_step s s' i r e)
]

Reaches-blocked : Reaches 1 blocked
Reaches-blocked = Reaches-step 1 0 _ (
    Reaches-step 1 0 _ (
      Reaches-step 1 0 _ (
        Reaches-call 1 0 (send 8) _ (
          Reaches-step 1 0 _
            (Reaches-step 1 0 _ (Reaches-step 1 0 _ (Reaches-call 1 0 (send 7) _ start)))))))

send_blocks : blocked.clients 0 ≡ send_parked 8 0
unfolding invoke advance channel
send_blocks = refl

send_parked-waits_example :
    (mem_waiter 0 blocked.inner.send_waiters ≡ true)
    × (IsFull blocked ⊎ IsPending wakes_senders blocked)
unfolding invoke advance channel
send_parked-waits_example = send_parked-waits 1 blocked 0 8 0 Reaches-blocked refl refl

-- client 1 waits for a value
abbrev thirsty : State ℕ
thirsty = after_step 1 (after_step 1 (after_call 1 recv (channel 1)))

recv_parked-waits_example :
    (mem_waiter 0 thirsty.inner.recv_waiters ≡ true)
    × (IsEmpty thirsty ⊎ IsPending wakes_receivers thirsty)
unfolding invoke advance channel
recv_parked-waits_example =
    recv_parked-waits 1 thirsty 1 0
      (Reaches-step 1 1 _ (Reaches-step 1 1 _ (Reaches-call 1 1 recv _ start))) refl refl

-- client 0 has pushed 7
abbrev pushed : State ℕ
pushed = after_step 0 (after_step 0 (after_call 0 (send 7) (channel 1)))

Run-pushed : Run (channel 1) (7 ∷ []) [] pushed
unfolding invoke advance channel accepts delivers
Run-pushed =
    stepped [] [] (after_step 0 (after_call 0 (send 7) (channel 1))) pushed 0
      (stepped [] [] (after_call 0 (send 7) (channel 1))
        (after_step 0 (after_call 0 (send 7) (channel 1))) 0
        (called [] [] (channel 1) (after_call 0 (send 7) (channel 1)) 0 (send 7) fresh refl) refl)
      refl

Run-fifo_example :
    (◌≡◌ {A = List ℕ} (7 ∷ []) ([] ++ pushed.inner.queue)) × (length pushed.inner.queue ≤ max 1 1)
Run-fifo_example = Run-fifo 1 (7 ∷ []) [] pushed Run-pushed

abbrev shut : State ℕ
shut = after_step 0 (after_call 0 close sent_one)

abbrev drained : State ℕ
drained = after_step 1 (after_call 1 recv shut)

closed-final_example :
    (drained.inner.closed ≡ true)
    × (◌≡◌ {A = List ℕ} [] [])
    × (shut.inner.queue ≡ (7 ∷ []) ++ drained.inner.queue)
unfolding invoke advance channel accepts delivers
closed-final_example = closed-final shut [] (7 ∷ []) drained refl (
    stepped [] [] (after_call 1 recv shut) drained 1
      (called [] [] shut (after_call 1 recv shut) 1 recv fresh refl) refl)

-- Client 1 waits for a value, client 2 has pushed 7 and is about to wake it, and client 0 is
-- parked in a call that sends 8.
abbrev crossed : State ℕ
crossed = after_step 0 (
    after_step 0 (
      after_step 0
        (after_call 0 (send 8) (after_step 2 (after_step 2 (after_call 2 (send 7) thirsty))))))

Reaches-crossed : Reaches 1 crossed
Reaches-crossed = Reaches-step 1 0 _ (
    Reaches-step 1 0 _ (
      Reaches-step 1 0 _ (
        Reaches-call 1 0 (send 8) _ (
          Reaches-step 1 2 _ (
            Reaches-step 1 2 _ (
              Reaches-call 1 2 (send 7) _
                (Reaches-step 1 1 _ (Reaches-step 1 1 _ (Reaches-call 1 1 recv _ start)))))))))

parked-IsPending_example : IsPending wakes_senders crossed ⊎ IsPending wakes_receivers crossed
unfolding invoke advance channel
parked-IsPending_example = parked-IsPending 1 crossed 0 1 8 1 0 Reaches-crossed refl refl refl refl

is_ready_iff_example :
    ((send_is_ready pushed ≡ true) ↔ ((try_push 1 8 pushed).clients 1 ≡ send_wake))
    × ((recv_is_ready pushed ≡ false)
        ↔ ((try_pop 1 pushed.inner.queue pushed).clients 1 ≡ recv_register))
is_ready_iff_example = is_ready_iff 1 8 pushed

abbrev abandoned : State ℕ
abandoned = after_call 0 drop_sender (channel 1)

last_sender-closes_example : (abandoned.inner.closed ≡ true) ⊎ IsPending is_closing abandoned
unfolding invoke advance channel
last_sender-closes_example =
    last_sender-closes 1 abandoned (Reaches-call 1 0 drop_sender _ start) refl
