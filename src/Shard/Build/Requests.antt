-- ===== src/Shard/Build/Requests.antt =====
-- The ids that a render has been given stay its own, whatever is asked of the shared allocator by its
-- own private calls and by other shards.

use mumble_server_runtime.Base.{
  ℕ, ◌≡◌, refl, ap, ◌∙◌, subst, Bool, true, false, inl, inr, some, List, [], ◌∷◌, arith, nat_eq,
  pair_eq, if◌then◌else◌,
}
use mumble_server_runtime.Base.Fallible.{Result-cases}
use mumble_server_runtime.Base.Assoc.{get, retain, get-retain}
use mumble_server_runtime.Base.Order.{nat_order}
use mumble_server_runtime.Shard.Ids.{
  IdAllocator, Occupant, allocated_channel, channel as allocate_channel, session, retain_channels,
  retire_channel_ids,
}
use mumble_server_runtime.Shard.Ids.Operations.{
  IsAllocator, channel-IsAllocator, channel-keeps, session-IsAllocator, session-channels,
  retain_channels-IsAllocator, retire_channel_ids-IsAllocator,
}
use mumble_server_runtime.Shard.Ids.History as Ids
use mumble_server_runtime.Shard.Ids.History.{run-IsAllocator, run}
use mumble_server_runtime.Shard.Build.{PrivateBuilder}
use mumble_server_runtime.Shard.Build.Private.{
  user_in, private_channel, private_user_flags, action, overlay_user, overlay_channel,
}
use mumble_server_runtime.Shard.Build.Coherent.{Keeps}
use mumble_server_runtime.Shard.Build.Calls as Calls
use mumble_server_runtime.Shard.Build.Calls.{
  PrivateCall, private_call, private_calls, Call, Rendering, returned, with_handle, is_foreign,
  interrupted, call, calls,
}

-- What a sequence of requests leaves of the allocator.
pub record IsKeeping (a b : IdAllocator) (shard : ℕ) : Type 0 where
  pub allocator : IsAllocator b
  pub keeps : Keeps a b shard

IsKeeping-refl : (a : IdAllocator) (shard : ℕ) → IsAllocator a → IsKeeping a a shard
IsKeeping-refl a shard v = record { allocator = v; keeps = λ key id h. h }

IsKeeping-trans :
    (a b c : IdAllocator) (shard : ℕ)
    → IsKeeping a b shard
    → IsKeeping b c shard
    → IsKeeping a c shard
IsKeeping-trans a b c shard h k = record {
  allocator = k.allocator;
  keeps = λ key id x. k.keeps key id (h.keeps key id x);
}

channel-IsKeeping :
    (a : IdAllocator) (other key shard : ℕ)
    → IsAllocator a
    → IsKeeping a (allocate_channel a other key).0 shard
channel-IsKeeping a other key shard v = record {
  allocator = channel-IsAllocator a other key v;
  keeps = λ key' id h. channel-keeps a other key shard key' id h;
}

session-IsKeeping :
    (a : IdAllocator) (who : Occupant) (shard : ℕ)
    → IsAllocator a
    → IsKeeping a (session a who).0 shard
unfolding allocated_channel
session-IsKeeping a who shard v = record {
  allocator = session-IsAllocator a who v;
  keeps = λ key id h. ap (λ m. get m (shard, key)) (session-channels a who).0 ∙ h;
}

either :
    (P : PrivateBuilder → Type 0) (b : Bool) (p q : PrivateBuilder)
    → P p
    → P q
    → P (if b then p else q)
either P true p q h k = h
either P false p q h k = k

-- A private call asks the allocator for at most one id, and is of the same shard.
private_call-ids :
    (p : PrivateBuilder) (c : PrivateCall)
    → IsAllocator p.ids
    → IsKeeping p.ids (private_call p c).ids p.shard × ((private_call p c).shard ≡ p.shard)
unfolding private_call user_in private_channel private_user_flags action overlay_user
    overlay_channel
private_call-ids p (Calls.place_user place who name) v = elim (Result-cases (session p.ids who).1) [
  | inl (id, granted) ↦ rw (granted, private_call) (session-IsKeeping p.ids who p.shard v, refl)
  | inr (e, refused) ↦ rw (refused, private_call) (session-IsKeeping p.ids who p.shard v, refl)
]
private_call-ids p (Calls.place_channel parent key name) v =
    elim (Result-cases (allocate_channel p.ids p.shard key).1) [
      | inl (id, granted) ↦
          rw (granted, private_call) (channel-IsKeeping p.ids p.shard key p.shard v, refl)
      | inr (e, refused) ↦
          rw (refused, private_call) (channel-IsKeeping p.ids p.shard key p.shard v, refl)
    ]
private_call-ids p (Calls.flag_user who flags) v = (IsKeeping-refl p.ids p.shard v, refl)
private_call-ids p (Calls.offer key text on) v =
    either (λ q. IsKeeping p.ids q.ids p.shard × (q.shard ≡ p.shard)) _ _ _
      (IsKeeping-refl p.ids p.shard v, refl) (IsKeeping-refl p.ids p.shard v, refl)

pub private_calls-ids :
    (cs : List PrivateCall) (p : PrivateBuilder)
    → IsAllocator p.ids
    → IsKeeping p.ids (private_calls cs p).ids p.shard
unfolding private_calls
private_calls-ids [] p v = IsKeeping-refl p.ids p.shard v
private_calls-ids (c ∷ cs) p v =
    let (first, e) = private_call-ids p c v in
    let p' = private_call p c in
    let rest = private_calls-ids cs p' first.allocator in
    IsKeeping-trans p.ids p'.ids (private_calls cs p').ids p.shard first
      (subst (IsKeeping p'.ids (private_calls cs p').ids) e rest)

retained :
    (keep : ℕ × ℕ → ℕ → Bool) (a : IdAllocator) (shard key id : ℕ)
    → IsAllocator a
    → get a.channels (shard, key) ≡ some id
    → keep (shard, key) id ≡ true
    → get (retain keep a.channels) (shard, key) ≡ some id
retained keep a shard key id v h k =
    get-retain keep a.channels (shard, key) v.channels.distinct ∙ rw (h, k) refl

-- What another shard asks for or retires leaves this shard's ids.
pub foreign-IsKeeping :
    (a : IdAllocator) (shard : ℕ) (c : Ids.Call)
    → is_foreign shard c ≡ true
    → IsAllocator a
    → IsKeeping a (Ids.call a c) shard
unfolding retain_channels retire_channel_ids allocated_channel
foreign-IsKeeping a shard (Ids.ask_channel other key) f v = channel-IsKeeping a other key shard v
foreign-IsKeeping a shard (Ids.ask_session who) f v = session-IsKeeping a who shard v
foreign-IsKeeping a shard (Ids.retain other keys) f v = record {
  allocator = retain_channels-IsAllocator a other keys v;
  keeps = λ key id h. retained _ a shard key id v h (ground arith);
}
foreign-IsKeeping a shard (Ids.retire other ids) f v = record {
  allocator = retire_channel_ids-IsAllocator a other ids v;
  keeps = λ key id h. retained _ a shard key id v h (ground arith);
}
