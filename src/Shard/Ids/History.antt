-- ===== src/Shard/Ids/History.antt =====
-- The allocator over any sequence of calls.
use mumble_server_runtime.Base.{
  ℕ, ◌≡◌, refl, sym, ap, subst, ◌∙◌, inl, inr, Option, none, some, List, [], ◌∷◌, arith,
  Option-cases, nat_eq, pair_eq,
}
use mumble_server_runtime.Base.Assoc.{get, get-insert}
use mumble_server_runtime.Shard.Ids.{
  IdAllocator, Occupant, occupant_eq, new_channel, channel, session, allocated_channel,
  retain_channels, retire_channel_ids,
}
use mumble_server_runtime.Shard.Ids.Invariant.{Spent, InRange, Spent-checked_suc, retain-get}
use mumble_server_runtime.Shard.Ids.Operations.{
  IsAllocator, channel-IsAllocator, session-channels, session-IsAllocator,
  retain_channels-IsAllocator, retire_channel_ids-IsAllocator,
}

-- The calls that change the allocator.
pub data Call : Type 0 where
  ask_channel : ℕ → ℕ → Call
  ask_session : Occupant → Call
  retain : ℕ → List ℕ → Call
  retire : ℕ → List ℕ → Call

abbrev pub call : IdAllocator → Call → IdAllocator
call a (ask_channel shard key) = (channel a shard key).0
call a (ask_session occupant) = (session a occupant).0
call a (retain shard retained) = retain_channels a shard retained
call a (retire shard retired) = retire_channel_ids a shard retired

unfoldable pub run : IdAllocator → List Call → IdAllocator
run a [] = a
run a (c ∷ calls) = run (call a c) calls

call-IsAllocator : (a : IdAllocator) (c : Call) → IsAllocator a → IsAllocator (call a c)
call-IsAllocator a (ask_channel shard key) v = channel-IsAllocator a shard key v
call-IsAllocator a (ask_session occupant) v = session-IsAllocator a occupant v
call-IsAllocator a (retain shard retained) v = retain_channels-IsAllocator a shard retained v
call-IsAllocator a (retire shard retired) v = retire_channel_ids-IsAllocator a shard retired v

-- Whatever is called, the invariant holds: distinct keys have distinct ids, and every id in the
-- tables is behind the cursor.
pub run-IsAllocator :
    (a : IdAllocator) (calls : List Call) → IsAllocator a → IsAllocator (run a calls)
unfolding run
run-IsAllocator a [] v = v
run-IsAllocator a (c ∷ calls) v = run-IsAllocator (call a c) calls (call-IsAllocator a c v)

-- A number that was handed out stays behind the cursor, and is on no key it was not on before.
record Kept (a b : IdAllocator) (id : ℕ) : Type 0 where
  spent : Spent b.next_channel id
  old :
      (shard key : ℕ)
      → allocated_channel b shard key ≡ some id
      → allocated_channel a shard key ≡ some id

Spent-lt : (n id : ℕ) → Spent (some n) id → n ≡ id → ⊥
Spent-lt n id s e = omega arith

Kept-refl : (a : IdAllocator) (id : ℕ) → Spent a.next_channel id → Kept a a id
Kept-refl a id s = record { spent = s; old = λ shard key h. h }

Kept-new_channel :
    (a : IdAllocator) (k : ℕ × ℕ) (next : Option ℕ) (id : ℕ)
    → a.next_channel ≡ next
    → IsAllocator a
    → Spent a.next_channel id
    → Kept a (new_channel a k next).0 id
unfolding new_channel allocated_channel
Kept-new_channel a k none id e v s = Kept-refl a id s
Kept-new_channel a k (some n) id e v s =
    let spent : Spent (some n) id = subst (λ o. Spent o id) e s in
    let (low, high) : InRange (some n) = subst InRange e v.channels.in_range in
    record {
      spent = Spent-checked_suc n id high spent;
      old = λ shard key h.
          ground (arith, get-insert a.channels k (shard, key) n, Spent-lt n id spent);
    }

Kept-channel :
    (a : IdAllocator) (shard key id : ℕ)
    → IsAllocator a
    → Spent a.next_channel id
    → Kept a (channel a shard key).0 id
unfolding channel
Kept-channel a shard key id v s = elim (Option-cases (get a.channels (shard, key))) [
  | inl absent ↦ rw (absent, channel) (Kept-new_channel a (shard, key) a.next_channel id refl v s)
  | inr (there, e) ↦ rw (e, channel) (Kept-refl a id s)
]

Kept-session :
    (a : IdAllocator) (o : Occupant) (id : ℕ) → Spent a.next_channel id → Kept a (session a o).0 id
unfolding allocated_channel
Kept-session a o id s =
    let (table, next) = session-channels a o in
    record {
      spent = subst (λ n. Spent n id) (sym next) s;
      old = λ shard key h. sym (ap (λ m. get m (shard, key)) table) ∙ h;
    }

Kept-call :
    (a : IdAllocator) (c : Call) (id : ℕ)
    → IsAllocator a
    → Spent a.next_channel id
    → Kept a (call a c) id
unfolding retain_channels retire_channel_ids allocated_channel
Kept-call a (ask_channel shard key) id v s = Kept-channel a shard key id v s
Kept-call a (ask_session occupant) id v s = Kept-session a occupant id s
Kept-call a (retain shard retained) id v s = record {
  spent = s;
  old = λ shard' key h. (retain-get _ a.channels (shard', key) id v.channels.distinct h).0;
}
Kept-call a (retire shard retired) id v s = record {
  spent = s;
  old = λ shard' key h. (retain-get _ a.channels (shard', key) id v.channels.distinct h).0;
}

-- A channel id that was handed out is never given to another channel, whatever is called: if it is
-- on a key later, it was on that key before. So an id that is on no key is dead for good.
pub channel_never_reused :
    (a : IdAllocator) (calls : List Call) (shard key id : ℕ)
    → IsAllocator a
    → Spent a.next_channel id
    → allocated_channel (run a calls) shard key ≡ some id
    → allocated_channel a shard key ≡ some id
unfolding run
channel_never_reused a [] shard key id v s h = h
channel_never_reused a (c ∷ calls) shard key id v s h =
    let kept = Kept-call a c id v s in
    kept.old shard key
      (channel_never_reused (call a c) calls shard key id (call-IsAllocator a c v) kept.spent h)
