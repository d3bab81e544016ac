-- ===== src/Shard/Ids.antt =====
-- runtime/crates/shard/src/ids.rs: the identifiers, and the allocator that maps stable identities
-- onto wire identifiers. The newtypes over `u32` and `u64` are natural numbers.
pub mod Invariant
pub mod Operations
pub mod History
mod Examples
use mumble_server_runtime.Base.{
  ℕ, ◌+◌, ◌^◌, ◌≡◌, ◌↔◌, Bool, true, false, not, ◌&&◌, ◌||◌, Option, none, some, List, [], ◌∷◌,
  arith, Result, ok, err, ltb, Eq, ◌==◌, nat_eq, pair_eq, if◌then◌else◌,
}
use mumble_server_runtime.Base.Assoc.{Assoc, get, insert, retain}
use mumble_server_runtime.Base.Order.{Order, contains, nat_order}
use Prim.Native.Nat.{compare, Ordering}
use Prim.Native.Nat.Ordering.{lt, eq, gt}

pub data Occupant : Type 0 where
  connection_of : ℕ → Occupant
  synthetic : ℕ → Occupant

unfoldable pub connection : Occupant → Option ℕ
connection (connection_of c) = some c
connection (synthetic s) = none

abbrev occupant_beq : Occupant → Occupant → Bool
occupant_beq (connection_of a) (connection_of b) = a == b
occupant_beq (synthetic a) (synthetic b) = a == b
occupant_beq _ _ = false

pub occupant_beq_iff : (a b : Occupant) → (occupant_beq a b ≡ true) ↔ (a ≡ b)
occupant_beq_iff (connection_of a) (connection_of b) = ground arith
occupant_beq_iff (connection_of a) (synthetic b) = ground arith
occupant_beq_iff (synthetic a) (connection_of b) = ground arith
occupant_beq_iff (synthetic a) (synthetic b) = ground arith

instance abbrev pub occupant_eq : Eq Occupant
occupant_eq = record { beq = occupant_beq; beq_iff = occupant_beq_iff }

-- The derived `Ord`: the connections before the synthetic users.
abbrev occupant_cmp : Occupant → Occupant → Ordering
occupant_cmp (connection_of a) (connection_of b) = compare a b
occupant_cmp (connection_of a) (synthetic b) = lt
occupant_cmp (synthetic a) (connection_of b) = gt
occupant_cmp (synthetic a) (synthetic b) = compare a b

pub occupant_cmp-eq : (a b : Occupant) → (occupant_cmp a b ≡ eq) ↔ (a ≡ b)
occupant_cmp-eq (connection_of a) (connection_of b) = ground arith
occupant_cmp-eq (connection_of a) (synthetic b) = ground arith
occupant_cmp-eq (synthetic a) (connection_of b) = ground arith
occupant_cmp-eq (synthetic a) (synthetic b) = ground arith

pub occupant_cmp-gt : (a b : Occupant) → (occupant_cmp a b ≡ gt) ↔ (occupant_cmp b a ≡ lt)
occupant_cmp-gt (connection_of a) (connection_of b) = ground arith
occupant_cmp-gt (connection_of a) (synthetic b) = ground arith
occupant_cmp-gt (synthetic a) (connection_of b) = ground arith
occupant_cmp-gt (synthetic a) (synthetic b) = ground arith

pub occupant_cmp_trans :
    (a b c : Occupant) → occupant_cmp a b ≡ lt → occupant_cmp b c ≡ lt → occupant_cmp a c ≡ lt
occupant_cmp_trans (connection_of a) (connection_of b) (connection_of c) = ground arith
occupant_cmp_trans (connection_of a) (connection_of b) (synthetic c) = ground arith
occupant_cmp_trans (connection_of a) (synthetic b) c = ground arith
occupant_cmp_trans (synthetic a) (connection_of b) c = ground arith
occupant_cmp_trans (synthetic a) (synthetic b) (connection_of c) = ground arith
occupant_cmp_trans (synthetic a) (synthetic b) (synthetic c) = ground arith

instance abbrev pub occupant_order : Order Occupant
occupant_order = record {
  cmp = occupant_cmp;
  cmp_eq = occupant_cmp-eq;
  cmp_gt = occupant_cmp-gt;
  cmp_trans = occupant_cmp_trans;
}

pub data Exhausted : Type 0 where
  channels_exhausted : Exhausted
  sessions_exhausted : Exhausted

abbrev pub u32_limit : ℕ
u32_limit = 2 ^ 32

-- `raw.checked_add(1)` on a `u32`
abbrev pub checked_suc : ℕ → Option ℕ
checked_suc raw = if ltb (raw + 1) u32_limit then some (raw + 1) else none

-- A channel's key is the pair of its shard and its `ChannelKey`.
pub record IdAllocator : Type 0 where
  pub channels : Assoc (ℕ × ℕ) ℕ
  pub sessions : Assoc Occupant ℕ
  pub next_channel : Option ℕ
  pub next_session : Option ℕ

abbrev pub new : IdAllocator
new = record { channels = []; sessions = []; next_channel = some 1; next_session = some 1 }

new_channel : IdAllocator → ℕ × ℕ → Option ℕ → IdAllocator × Result Exhausted ℕ
unfolding insert
new_channel a key none = (a, err channels_exhausted)
new_channel a key (some raw) =
    (record a { channels = insert a.channels key raw; next_channel = checked_suc raw }, ok raw)

unfoldable pub channel : IdAllocator → ℕ → ℕ → IdAllocator × Result Exhausted ℕ
unfolding new_channel get
channel a shard key = elim (get a.channels (shard, key)) [
  | some existing ↦ (a, ok existing)
  | none ↦ new_channel a (shard, key) a.next_channel
]

new_session : IdAllocator → Occupant → Option ℕ → IdAllocator × Result Exhausted ℕ
unfolding insert
new_session a occupant none = (a, err sessions_exhausted)
new_session a occupant (some raw) =
    (record a { sessions = insert a.sessions occupant raw; next_session = checked_suc raw }, ok raw)

unfoldable pub session : IdAllocator → Occupant → IdAllocator × Result Exhausted ℕ
unfolding new_session get
session a occupant = elim (get a.sessions occupant) [
  | some existing ↦ (a, ok existing)
  | none ↦ new_session a occupant a.next_session
]

unfoldable pub allocated_session : IdAllocator → Occupant → Option ℕ
allocated_session a occupant = get a.sessions occupant

unfoldable pub allocated_channel : IdAllocator → ℕ → ℕ → Option ℕ
allocated_channel a shard key = get a.channels (shard, key)

-- `retained` is the set of keys, in any order.
unfoldable pub retain_channels : IdAllocator → ℕ → List ℕ → IdAllocator
unfolding retain
retain_channels a shard retained = record a {
  channels = retain (λ k _. not (k.0 == shard) || contains retained k.1) a.channels;
}

unfoldable pub retire_channel_ids : IdAllocator → ℕ → List ℕ → IdAllocator
unfolding retain
retire_channel_ids a shard retired = record a {
  channels = retain (λ k id. not (k.0 == shard) || not (contains retired id)) a.channels;
}
