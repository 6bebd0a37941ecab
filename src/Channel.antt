-- ===== src/Channel.antt =====
-- runtime/paco-runtime/src/channel.rs with the wakers of sync.rs and task.rs: a bounded channel.
-- A step is what a client does while no other can see it: a region under a lock, or one atomic
-- operation. A waker is a number, new for each registration; `fired` is its flag.

pub mod Registered
pub mod Frames
pub mod Keeping
pub mod Waking
pub mod Moves
pub mod Order
pub mod Closing
pub mod Progress
pub mod Senders
use paco.Prelude.{
  ℕ, ◌+◌, ◌-◌, max, ◌≡◌, Bool, true, false, not, ◌&&◌, ◌||◌, Option, none, some, List, [], ◌∷◌,
  ◌++◌, ltb, ◌==◌, if◌then◌else◌, length,
}

pub record Inner (T : Type 0) : Type 0 where
  pub queue : List T
  pub capacity : ℕ
  pub send_waiters : List ℕ
  pub recv_waiters : List ℕ
  pub closed : Bool
  pub sender_count : ℕ

-- where a client stands in its call
pub data Phase (T : Type 0) : Type 0 where
  idle : Phase T
  -- `send`: before the first look at `closed`, before the lock, before `push(notify)` with the
  -- lock held, before `wake_all`, in `park`, and the two returns
  send_begin : T → Phase T
  send_lock : T → Phase T
  send_register : T → Phase T
  send_wake : Phase T
  send_parked : T → ℕ → Phase T
  sent : Phase T
  send_failed : T → Phase T
  -- `recv`
  recv_lock : Phase T
  recv_register : Phase T
  recv_wake : T → Phase T
  recv_parked : ℕ → Phase T
  received : T → Phase T
  recv_failed : Phase T
  -- `Inner::close`
  close_lock : Phase T
  close_wake_senders : Phase T
  close_wake_receivers : Phase T

pub record State (T : Type 0) : Type 0 where
  pub inner : Inner T
  -- the holder of the queue's lock between two of its steps
  pub lock : Option ℕ
  pub fired : ℕ → Bool
  pub next_waker : ℕ
  pub clients : ℕ → Phase T

pub data Call (T : Type 0) : Type 0 where
  send : T → Call T
  recv : Call T
  close : Call T
  clone_sender : Call T
  drop_sender : Call T

unfoldable pub update {ℓ} : {A : Type ℓ} → ℕ → A → (ℕ → A) → ℕ → A
update i p f j = if i == j then p else f j

unfoldable pub mem_waiter : ℕ → List ℕ → Bool
mem_waiter n [] = false
mem_waiter n (m ∷ ms) = n == m || mem_waiter n ms

-- `wake_all`: each waker is fired once
unfoldable pub wake_all : List ℕ → (ℕ → Bool) → ℕ → Bool
unfolding mem_waiter
wake_all waiters fired n = fired n || mem_waiter n waiters

module _ {T : Type 0} where
  unfoldable pub channel : ℕ → State T
  channel capacity = record {
    inner = record {
      queue = [];
      capacity = max capacity 1;
      send_waiters = [];
      recv_waiters = [];
      closed = false;
      sender_count = 1;
    };
    lock = none;
    fired = λ n. false;
    next_waker = 0;
    clients = λ i. idle;
  }

  unfoldable pub goto : ℕ → Phase T → State T → State T
  unfolding update
  goto i p s = record s { clients = update i p s.clients }

  unfoldable pub set_inner : ℕ → Phase T → Inner T → State T → State T
  unfolding update
  set_inner i p inner s = record s { inner = inner; clients = update i p s.clients }

  unfoldable pub wake_senders : ℕ → Phase T → State T → State T
  unfolding update wake_all
  wake_senders i p s = record s {
    inner = record s.inner { send_waiters = [] };
    fired = wake_all s.inner.send_waiters s.fired;
    clients = update i p s.clients;
  }

  unfoldable pub wake_receivers : ℕ → Phase T → State T → State T
  unfolding update wake_all
  wake_receivers i p s = record s {
    inner = record s.inner { recv_waiters = [] };
    fired = wake_all s.inner.recv_waiters s.fired;
    clients = update i p s.clients;
  }

  -- the locked region of `send` up to the registration
  unfoldable pub try_push : ℕ → T → State T → State T
  unfolding goto set_inner
  try_push i v s =
      if s.inner.closed
      then goto i (send_failed v) s
      else (if ltb (length s.inner.queue) s.inner.capacity
          then set_inner i send_wake (record s.inner { queue = s.inner.queue ++ v ∷ [] }) s
          else record (goto i (send_register v) s) { lock = some i })

  unfoldable pub register_sender : ℕ → T → State T → State T
  unfolding update
  register_sender i v s = record s {
    inner = record s.inner { send_waiters = s.inner.send_waiters ++ s.next_waker ∷ [] };
    lock = none;
    next_waker = s.next_waker + 1;
    clients = update i (send_parked v s.next_waker) s.clients;
  }

  -- the locked region of `recv` up to the registration
  unfoldable pub try_pop : ℕ → List T → State T → State T
  unfolding goto set_inner
  try_pop i (v ∷ vs) s = set_inner i (recv_wake v) (record s.inner { queue = vs }) s
  try_pop i [] s =
      if s.inner.closed
      then goto i recv_failed s
      else record (goto i recv_register s) { lock = some i }

  unfoldable pub register_receiver : ℕ → State T → State T
  unfolding update
  register_receiver i s = record s {
    inner = record s.inner { recv_waiters = s.inner.recv_waiters ++ s.next_waker ∷ [] };
    lock = none;
    next_waker = s.next_waker + 1;
    clients = update i (recv_parked s.next_waker) s.clients;
  }

  unfoldable pub with_lock : Option ℕ → State T → Option (State T)
  with_lock none s' = some s'
  with_lock (some _) s' = none

  -- the next step of a client, from where it stands; none while it waits or has returned
  unfoldable pub act : ℕ → State T → Phase T → Option (State T)
  unfolding goto set_inner wake_senders wake_receivers try_push register_sender try_pop
      register_receiver with_lock
  act i s (send_begin v) =
      if s.inner.closed then some (goto i (send_failed v) s) else some (goto i (send_lock v) s)
  act i s (send_lock v) = with_lock s.lock (try_push i v s)
  act i s (send_register v) = some (register_sender i v s)
  act i s send_wake = some (wake_receivers i sent s)
  act i s (send_parked v n) = if s.fired n then some (goto i (send_begin v) s) else none
  act i s recv_lock = with_lock s.lock (try_pop i s.inner.queue s)
  act i s recv_register = some (register_receiver i s)
  act i s (recv_wake v) = some (wake_senders i (received v) s)
  act i s (recv_parked n) = if s.fired n then some (goto i recv_lock s) else none
  act i s close_lock =
      with_lock s.lock (set_inner i close_wake_senders (record s.inner { closed = true }) s)
  act i s close_wake_senders = some (wake_senders i close_wake_receivers s)
  act i s close_wake_receivers = some (wake_receivers i idle s)
  act i s _ = none

  unfoldable pub advance : ℕ → State T → Option (State T)
  unfolding act
  advance i s = act i s (s.clients i)

  unfoldable pub at_rest : Phase T → Bool
  at_rest idle = true
  at_rest sent = true
  at_rest (send_failed _) = true
  at_rest (received _) = true
  at_rest recv_failed = true
  at_rest _ = false

  -- A new call of a client that has returned from its last one. A sender is cloned or dropped
  -- while there is one.
  unfoldable pub begin_call : ℕ → Call T → State T → Option (State T)
  unfolding goto set_inner
  begin_call i (send v) s = some (goto i (send_begin v) s)
  begin_call i recv s = some (goto i recv_lock s)
  begin_call i close s = some (goto i close_lock s)
  begin_call i clone_sender s =
      if ltb 0 s.inner.sender_count
      then some (set_inner i idle (record s.inner { sender_count = s.inner.sender_count + 1 }) s)
      else none
  begin_call i drop_sender s =
      if ltb 0 s.inner.sender_count
      then some (
          set_inner i (if s.inner.sender_count == 1 then close_lock else idle)
            (record s.inner { sender_count = s.inner.sender_count - 1 }) s)
      else none

  unfoldable pub invoke : ℕ → Call T → State T → Option (State T)
  unfolding begin_call at_rest
  invoke i call s = if at_rest (s.clients i) then begin_call i call s else none

  -- `Sender::is_ready`, on one state: the source loads `closed` before it locks the queue, and the two
  -- reads are of one state where no step falls between them.
  unfoldable pub send_is_ready : State T → Bool
  send_is_ready s = not s.inner.closed && ltb (length s.inner.queue) s.inner.capacity

  -- `Receiver::is_ready`
  unfoldable pub recv_is_ready : State T → Bool
  recv_is_ready s = ltb 0 (length s.inner.queue) || s.inner.closed

  unfoldable pub leave_park : ℕ → Phase T → State T → Option (State T)
  unfolding goto
  leave_park i (send_parked v n) s = some (goto i (send_begin v) s)
  leave_park i (recv_parked n) s = some (goto i recv_lock s)
  leave_park i _ s = none

  -- `park` of a thread, not of a task, may return without a notification.
  unfoldable pub wake_spuriously : ℕ → State T → Option (State T)
  unfolding leave_park
  wake_spuriously i s = leave_park i (s.clients i) s

-- The states that a new channel of a capacity comes to, under any scheduling of its clients.
pub data Reaches {T : Type 0} (capacity : ℕ) : State T → Type 0 where
  start : Reaches capacity (channel capacity)
  by_call :
      (s s' : State T) (i : ℕ) (call : Call T)
      → Reaches capacity s
      → invoke i call s ≡ some s'
      → Reaches capacity s'
  by_step :
      (s s' : State T) (i : ℕ) → Reaches capacity s → advance i s ≡ some s' → Reaches capacity s'
  by_chance :
      (s s' : State T) (i : ℕ)
      → Reaches capacity s
      → wake_spuriously i s ≡ some s'
      → Reaches capacity s'
