-- ===== src/Shard/Ids/Operations.antt =====
-- Each operation of the allocator: what it returns, and that it keeps the invariant.
use mumble_server_runtime.Base.{
  ℕ, ◌≡◌, ◌∙◌, ap, Bool, true, false, subst, refl, inl, inr, ◌&&◌, Option, none, some, List, arith,
  Result, ok, err, Option-cases, ◌==◌, nat_eq, pair_eq, if◌then◌else◌,
}
use mumble_server_runtime.Base.Assoc.{get, get-insert}
use mumble_server_runtime.Base.Order.{nat_order}
use mumble_server_runtime.Shard.Ids.{
  IdAllocator, Occupant, occupant_eq, Exhausted, new, new_channel, channel, new_session, session,
  allocated_channel, retain_channels, retire_channel_ids,
}
use mumble_server_runtime.Shard.Ids.Invariant.{
  IsTable, allocate-IsTable, retain-IsTable, nil-IsTable,
}

pub record IsAllocator (a : IdAllocator) : Type 0 where
  pub channels : IsTable a.channels a.next_channel
  pub sessions : IsTable a.sessions a.next_session

pub new-IsAllocator : IsAllocator new
new-IsAllocator = record { channels = nil-IsTable; sessions = nil-IsTable }

new_channel-IsAllocator :
    (a : IdAllocator) (k : ℕ × ℕ) (next : Option ℕ)
    → a.next_channel ≡ next
    → get a.channels k ≡ none
    → IsAllocator a
    → IsAllocator (new_channel a k next).0
unfolding new_channel
new_channel-IsAllocator a k none e absent v = v
new_channel-IsAllocator a k (some n) e absent v = record {
  channels = allocate-IsTable a.channels n k absent (subst (IsTable a.channels) e v.channels);
  sessions = v.sessions;
}

pub channel-IsAllocator :
    (a : IdAllocator) (shard key : ℕ) → IsAllocator a → IsAllocator (channel a shard key).0
unfolding channel
channel-IsAllocator a shard key v = elim (Option-cases (get a.channels (shard, key))) [
  | inl absent ↦
      rw (absent, channel) (new_channel-IsAllocator a (shard, key) a.next_channel refl absent v)
  | inr (id, there) ↦ rw (there, channel) v
]

new_session-IsAllocator :
    (a : IdAllocator) (o : Occupant) (next : Option ℕ)
    → a.next_session ≡ next
    → get a.sessions o ≡ none
    → IsAllocator a
    → IsAllocator (new_session a o next).0
unfolding new_session
new_session-IsAllocator a o none e absent v = v
new_session-IsAllocator a o (some n) e absent v = record {
  channels = v.channels;
  sessions = allocate-IsTable a.sessions n o absent (subst (IsTable a.sessions) e v.sessions);
}

pub session-IsAllocator :
    (a : IdAllocator) (o : Occupant) → IsAllocator a → IsAllocator (session a o).0
unfolding session
session-IsAllocator a o v = elim (Option-cases (get a.sessions o)) [
  | inl absent ↦ rw (absent, session) (new_session-IsAllocator a o a.next_session refl absent v)
  | inr (id, there) ↦ rw (there, session) v
]

pub retain_channels-IsAllocator :
    (a : IdAllocator) (shard : ℕ) (retained : List ℕ)
    → IsAllocator a
    → IsAllocator (retain_channels a shard retained)
unfolding retain_channels
retain_channels-IsAllocator a shard retained v = record {
  channels = retain-IsTable _ a.channels a.next_channel v.channels;
  sessions = v.sessions;
}

pub retire_channel_ids-IsAllocator :
    (a : IdAllocator) (shard : ℕ) (retired : List ℕ)
    → IsAllocator a
    → IsAllocator (retire_channel_ids a shard retired)
unfolding retire_channel_ids
retire_channel_ids-IsAllocator a shard retired v = record {
  channels = retain-IsTable _ a.channels a.next_channel v.channels;
  sessions = v.sessions;
}

abbrev pub granted : Result Exhausted ℕ → Option ℕ
granted (ok id) = some id
granted (err e) = none

get-new_channel :
    (a : IdAllocator) (k j : ℕ × ℕ) (next : Option ℕ)
    → get a.channels k ≡ none
    → get (new_channel a k next).0.channels j
      ≡ (if k == j then granted (new_channel a k next).1 else get a.channels j)
unfolding new_channel
get-new_channel a k j none absent = ground (arith, pair_eq.beq_iff k j)
get-new_channel a k j (some n) absent = get-insert a.channels k j n

-- Asking for a channel's id records what is returned under that key, and leaves every other key's
-- id as it was.
pub allocated_channel-channel :
    (a : IdAllocator) (shard key shard' key' : ℕ)
    → allocated_channel (channel a shard key).0 shard' key' ≡ (
        if shard == shard' && key == key'
        then granted (channel a shard key).1
        else allocated_channel a shard' key')
unfolding channel allocated_channel
allocated_channel-channel a shard key shard' key' =
    elim (Option-cases (get a.channels (shard, key))) [
      | inl absent ↦
          rw (absent, channel) (get-new_channel a (shard, key) (shard', key') a.next_channel absent)
      | inr (id, there) ↦
          rw (there, channel) (ground (arith, pair_eq.beq_iff (shard, key) (shard', key')))
    ]

-- A key with an id is answered by it.
pub channel_known :
    (a : IdAllocator) (shard key id : ℕ)
    → allocated_channel a shard key ≡ some id
    → (channel a shard key).1 ≡ ok id
unfolding channel allocated_channel
channel_known a shard key id h = ground arith

-- Asking for one id forgets no other.
pub channel-keeps :
    (a : IdAllocator) (shard key shard' key' id : ℕ)
    → allocated_channel a shard' key' ≡ some id
    → allocated_channel (channel a shard key).0 shard' key' ≡ some id
channel-keeps a shard key shard' key' id h =
    allocated_channel-channel a shard key shard' key'
    ∙ by_cases (shard == shard' && key == key') (λ same. ground arith)
  where
    by_cases :
        (b : Bool)
        → (b ≡ true → (shard ≡ shard') × (key ≡ key'))
        → (if b then granted (channel a shard key).1 else allocated_channel a shard' key') ≡ some id
    by_cases false e = h
    by_cases true e =
        let (s, k) = e refl in let known = channel_known a shard' key' id h in rw (s, k, known) refl

pub channel-grants :
    (a : IdAllocator) (shard key id : ℕ)
    → (channel a shard key).1 ≡ ok id
    → allocated_channel (channel a shard key).0 shard key ≡ some id
channel-grants a shard key id h =
    allocated_channel-channel a shard key shard key ∙ ground (arith, ap granted h)

pub session-channels :
    (a : IdAllocator) (o : Occupant)
    → ((session a o).0.channels ≡ a.channels) × ((session a o).0.next_channel ≡ a.next_channel)
unfolding session new_session
session-channels a o = ground arith
