-- ===== src/Shard/Queue.antt =====
-- runtime/crates/shard/src/queue.rs: the bounded output queue of one connection. The channel of
-- `tokio::sync::mpsc` is an interface: its state, its operations, and of them what the queue relies
-- on. One call runs against one state of the channel: the writer's receives come between calls.
pub mod Admission
pub mod Progress
pub mod Slots
mod Examples
use mumble_server_runtime.Base.{
  ℕ, zero, suc, ◌+◌, ◌-◌, ◌≡◌, Bool, true, false, List, [], ◌∷◌, ◌++◌, Result, ok, err, ltb, leb,
  length, nat_eq, ◌==◌, if◌then◌else◌,
}

abbrev pub max_depth_for_voice : ℕ
max_depth_for_voice = 64

-- What `try_reserve` returns.
pub data Reservation (S : Type 0) : Type 0 where
  reserved : S → Reservation S
  full : Reservation S
  closed : Reservation S

-- `mpsc::Sender`, of messages in `M`: a permit that is held counts as a taken slot until it is
-- sent or dropped.
pub record Mpsc (M : Type 0) : Type 1 where
  pub State : Type 0
  pub max_capacity : State → ℕ
  pub capacity : State → ℕ
  pub is_closed : State → Bool
  pub try_reserve : State → Reservation State
  pub send : State → M → State
  pub release : State → State
  pub queued : State → List M
  pub reserve_queued : (s t : State) → try_reserve s ≡ reserved t → queued t ≡ queued s
  pub reserve_capacity : (s t : State) → try_reserve s ≡ reserved t → capacity s ≡ capacity t + 1
  pub reserve_is_closed : (s t : State) → try_reserve s ≡ reserved t → is_closed t ≡ is_closed s
  pub reserve_full : (s : State) → try_reserve s ≡ full → capacity s ≡ 0
  pub reserve_closed : (s : State) → try_reserve s ≡ closed → is_closed s ≡ true
  pub send_queued : (s : State) (m : M) → queued (send s m) ≡ queued s ++ m ∷ []
  pub send_capacity : (s : State) (m : M) → capacity (send s m) ≡ capacity s
  pub release_queued : (s : State) → queued (release s) ≡ queued s
  pub release_capacity : (s : State) → capacity (release s) ≡ capacity s + 1

pub data VoiceAdmission : Type 0 where
  accepted : VoiceAdmission
  dropped : VoiceAdmission

pub data Refused : Type 0 where
  congested : ℕ → ℕ → Refused
  too_large : ℕ → ℕ → Refused
  writer_ended : Refused

module _ {M : Type 0} (c : Mpsc M) where
  pub record OutboundQueue : Type 0 where
    pub sender : c.State
    pub must_close : Bool

  -- What the reservation loop comes to: the channel with every slot held, or the permits dropped.
  pub data Reserved : Type 0 where
    all_reserved : c.State → Reserved
    not_enough : c.State → ℕ → Reserved
    ended : c.State → Reserved

  release_all : ℕ → c.State → c.State
  release_all zero s = s
  release_all (suc permits) s = release_all permits (c.release s)

  -- `permits` are held; that many more are asked for.
  reserve_all : ℕ → ℕ → c.State → Reserved
  unfolding release_all
  reserve_all zero permits s = all_reserved s
  reserve_all (suc needed) permits s = elim (c.try_reserve s) [
    | reserved t ↦ reserve_all needed (suc permits) t
    | full ↦ not_enough (release_all permits s) permits
    | closed ↦ ended (release_all permits s)
  ]

  send_all : c.State → List M → c.State
  send_all s [] = s
  send_all s (m ∷ messages) = send_all (c.send s m) messages

  -- After the size tests.
  admit_all : OutboundQueue → List M → Reserved → OutboundQueue × Result Refused (Unit {0})
  unfolding send_all
  admit_all q messages (all_reserved s) = (record q { sender = send_all s messages }, ok tt)
  admit_all q messages (not_enough s free) =
      (record q { sender = s }, err (congested (length messages) free))
  admit_all q messages (ended s) = (record { sender = s; must_close = true }, err writer_ended)

  unfoldable pub try_send_all : OutboundQueue → List M → OutboundQueue × Result Refused (Unit {0})
  unfolding admit_all reserve_all
  try_send_all q messages =
      let needed = length messages in
      let capacity = c.max_capacity q.sender in
      if needed == 0
      then (q, ok tt)
      else if ltb capacity needed
      then (record q { must_close = true }, err (too_large needed capacity))
      else admit_all q messages (reserve_all needed 0 q.sender)

  unfoldable pub depth : OutboundQueue → ℕ
  depth q = c.max_capacity q.sender - c.capacity q.sender

  -- `sender.try_send(message)`: a slot reserved and used.
  offer : OutboundQueue → M → Reservation c.State → OutboundQueue × VoiceAdmission
  offer q message (reserved t) = (record q { sender = c.send t message }, accepted)
  offer q message full = (q, dropped)
  offer q message closed = (record q { must_close = true }, dropped)

  unfoldable pub push_voice : OutboundQueue → M → OutboundQueue × VoiceAdmission
  unfolding depth offer
  push_voice q message =
      if leb max_depth_for_voice (depth q)
      then (q, dropped)
      else offer q message (c.try_reserve q.sender)

  unfoldable pub mark_fatal : OutboundQueue → OutboundQueue
  mark_fatal q = record q { must_close = true }
