-- ===== src/Shard/Queue/Slots.antt =====
-- A channel of two slots, one of them taken.
use mumble_server_runtime.Base.{
  ℕ, zero, suc, ◌+◌, ◌≡◌, refl, true, false, List, [], ◌∷◌, ◌++◌, arith,
}
use mumble_server_runtime.Shard.Queue.{Mpsc, Reservation, reserved, full, closed, OutboundQueue}

pub record Slots : Type 0 where
  pub max_slots : ℕ
  pub free : ℕ
  pub waiting : List ℕ

abbrev pub reserve_slot : Slots → ℕ → Reservation Slots
reserve_slot s zero = full
reserve_slot s (suc n) = reserved (record s { free = n })

pub reserve_slot_lem :
    (s t : Slots) (n : ℕ)
    → reserve_slot s n ≡ reserved t
    → (t.waiting ≡ s.waiting) × (n ≡ t.free + 1)
reserve_slot_lem s t zero e = ground arith
reserve_slot_lem s t (suc n) e = ground arith

-- Only a channel without a free slot refuses, and it is never closed.
pub reserve_slot_refused :
    (s : Slots) (n : ℕ)
    → (reserve_slot s n ≡ full → n ≡ 0) × (reserve_slot s n ≡ closed → false ≡ true)
reserve_slot_refused s zero = (λ e. refl, λ e. ground arith)
reserve_slot_refused s (suc n) = (λ e. ground arith, λ e. ground arith)

abbrev pub slots : Mpsc ℕ
slots = record {
  State = Slots;
  max_capacity = λ s. s.max_slots;
  capacity = λ s. s.free;
  is_closed = λ s. false;
  try_reserve = λ s. reserve_slot s s.free;
  send = λ s m. record s { waiting = s.waiting ++ m ∷ [] };
  release = λ s. record s { free = s.free + 1 };
  queued = λ s. s.waiting;
  reserve_queued = λ s t e. (reserve_slot_lem s t s.free e).0;
  reserve_capacity = λ s t e. (reserve_slot_lem s t s.free e).1;
  reserve_is_closed = λ s t e. refl;
  reserve_full = λ s e. (reserve_slot_refused s s.free).0 e;
  reserve_closed = λ s e. (reserve_slot_refused s s.free).1 e;
  send_queued = λ s m. refl;
  send_capacity = λ s m. refl;
  release_queued = λ s. refl;
  release_capacity = λ s. refl;
}

abbrev pub one_free : OutboundQueue slots
one_free = record {
  sender = record { max_slots = 2; free = 1; waiting = 7 ∷ [] };
  must_close = false;
}
