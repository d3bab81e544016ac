-- ===== src/Shard/Build/Steps.antt =====
-- Each call of the builder keeps the view closed and what was rendered before.
use Prim.Native.String.{String}
use mumble_server_runtime.Base.{
  ℕ, ◌≤◌, ◌≡◌, ◌≢◌, refl, sym, ap, ◌∙◌, subst, true, false, ◌||◌, ◌⊎◌, inl, inr, Option, none, some,
  arith, ◌==◌, ◌==ℕ◌, nat_eq, ==ℕ_iff, Bool-cases, Option-cases,
}
use mumble_server_runtime.Base.Fallible.{Result-cases}
use mumble_server_runtime.Base.Assoc.{Assoc, get}
use mumble_server_runtime.Base.Order.{nat_order, contains, contains-set_insert, set_insert}
use mumble_server_runtime.Base.Btree.{btree_insert, get-btree_insert, btree_insert-IsOrdered}
use mumble_server_runtime.Shard.Ids.{IdAllocator, allocated_channel, channel as allocate_channel}
use mumble_server_runtime.Shard.Ids.Operations.{
  IsAllocator, channel-IsAllocator, channel-keeps, channel-grants,
}
use mumble_server_runtime.Shard.Ids.Invariant.{Spent}
use mumble_server_runtime.Shard.Scope.{Scope, is_prefix_of, child}
use mumble_server_runtime.Shard.Scope.Paths.{IsScope, child-IsScope}
use mumble_server_runtime.Shard.Scope.Visibility.{is_prefix_of_refl, is_prefix_of-child}
use mumble_server_runtime.Shard.View.{Channel}
use mumble_server_runtime.Shard.Build.{
  ChannelRef, ShardBuilder, Narrow, same, into, Context, channel_named, starting_channel,
  BuildError,
}
use mumble_server_runtime.Shard.Build.Builder.{
  fail, narrowed, place_channel, channel_allocated, channel_keyed, channel,
}
use mumble_server_runtime.Shard.Build.Tree.{
  Node, IsPlaced, Extends, Extends-refl, Extends-trans, Extends-insert, IsPlaced-Extends,
  insert-IsTree,
}
use mumble_server_runtime.Shard.Build.Coherent.{
  IsCoherent, Coherent-ids, Coherent-channels, Known, Keeps,
}

-- A call that leaves the builder coherent and every channel where it was.
pub record IsStep (b b' : ShardBuilder) : Type 0 where
  pub coherent : IsCoherent b'
  pub extends : Extends b.view.channels b'.view.channels

-- A call that returns a handle of the view.
pub record IsPlacing (b : ShardBuilder) (result : ShardBuilder × ChannelRef) : Type 0 where
  pub step : IsStep b result.0
  pub placed : IsPlaced result.0.view.channels result.1

pub then-IsStep : (a b c : ShardBuilder) → IsStep a b → IsStep b c → IsStep a c
then-IsStep a b c s t = record {
  coherent = t.coherent;
  extends = Extends-trans a.view.channels b.view.channels c.view.channels s.extends t.extends;
}

pub fail-IsStep : (b : ShardBuilder) (e : BuildError) → IsCoherent b → IsStep b (fail b e)
unfolding fail
fail-IsStep b e c = record { coherent = c; extends = Extends-refl b.view.channels }

-- A scope at or below the parent's.
pub record IsNarrowed (parent scope : Scope) : Type 0 where
  pub scoped : IsScope scope
  pub narrower : is_prefix_of parent scope ≡ true

pub narrowed-IsNarrowed :
    (b : ShardBuilder) (parent : Scope) (narrow : Narrow) (context : Context) (scope : Scope)
    → IsScope parent
    → (narrowed b parent narrow context).1 ≡ some scope
    → IsNarrowed parent scope
unfolding narrowed
narrowed-IsNarrowed b parent same context scope v h =
    let e : parent ≡ scope = ground arith in
    record {
      scoped = subst IsScope e v;
      narrower = subst (λ s. is_prefix_of parent s ≡ true) e (is_prefix_of_refl parent);
    }
narrowed-IsNarrowed b parent (into segment) context scope v h =
    let e : child parent segment ≡ some scope = ground arith in
    record {
      scoped = child-IsScope parent segment scope v e;
      narrower = is_prefix_of-child parent segment scope v e;
    }

pub narrowed-IsStep :
    (b : ShardBuilder) (parent : Scope) (narrow : Narrow) (context : Context)
    → IsCoherent b
    → IsStep b (narrowed b parent narrow context).0
unfolding narrowed fail
narrowed-IsStep b parent same context c = record {
  coherent = c;
  extends = Extends-refl b.view.channels;
}
narrowed-IsStep b parent (into segment) context c = elim (Option-cases (child parent segment)) [
  | inl deep ↦ rw (deep, narrowed) (record { coherent = c; extends = Extends-refl b.view.channels })
  | inr (scope, there) ↦
      rw (there, narrowed) (record { coherent = c; extends = Extends-refl b.view.channels })
]

pub placed-IsScope :
    (b : ShardBuilder) (r : ChannelRef)
    → IsCoherent b
    → IsPlaced b.view.channels r
    → IsScope r.scope
placed-IsScope b r c p = subst IsScope p.same_scope (c.closed.tree r.id p.channel p.there).scoped

-- A new channel under a placed one.
place_channel-IsPlacing :
    (b : ShardBuilder) (parent : ChannelRef) (key id : ℕ) (scope : Scope) (name : String)
    → IsPlaced b.view.channels parent
    → IsNarrowed parent.scope scope
    → get b.view.channels id ≡ none
    → 1 ≤ id
    → contains b.keys_seen key ≡ true
    → allocated_channel b.ids b.shard key ≡ some id
    → IsCoherent b
    → IsPlacing b (place_channel b parent.id key id scope name, record { id = id; scope = scope })
unfolding place_channel
place_channel-IsPlacing b parent key id scope name p n absent low seen granted c =
    let m = b.view.channels in
    let new = starting_channel parent.id key id scope name in
    let x = Extends-insert m id new absent in
    let (d, there, kept) = x parent.id p.channel p.there in
    let found : get (btree_insert m id new) id ≡ some new =
      get-btree_insert m id id new ∙ rw ((==ℕ_iff id id).1 refl) refl in
    let node : Node (btree_insert m id new) id new = record {
      keyed = refl;
      scoped = n.scoped;
      parent = d;
      there = there;
      narrower = rw (kept.scope, p.same_scope) n.narrower;
      linked = λ l h. cc;
    } in
    let known : Known b.ids b.shard b.keys_seen (btree_insert m id new) = λ j e h.
      elim (Bool-cases (id == j)) [
        | inl is ↦
            let f : new ≡ e = ground (arith, get-btree_insert m id j new) in
            let at : id ≡ j = (==ℕ_iff id j).0 is in
            let k : key ≡ e.key = ap (λ x. x.key) f in
            inr (
              sym (ap (contains b.keys_seen) k) ∙ seen,
              sym (ap (allocated_channel b.ids b.shard) k) ∙ granted ∙ ap some at,
            )
        | inr other ↦ c.known j e (ground (arith, get-btree_insert m id j new))
      ] in
    let unrooted : b.rooted ≡ false → get (btree_insert m id new) 0 ≡ none =
      λ r. ground (arith, get-btree_insert m id 0 new, c.unrooted r) in
    record {
      step = record {
        coherent =
            Coherent-channels b.ids b.shard b.keys_seen b.rooted b.view (btree_insert m id new) x
              (btree_insert-IsOrdered m id new c.closed.channels_ordered)
              (insert-IsTree m id new absent node c.closed.tree) known unrooted c;
        extends = x;
      };
      placed = record { channel = new; there = found; same_scope = refl };
    }

-- A key that has not been rendered is on no channel but the root.
abbrev IsFresh : ℕ → Assoc ℕ Channel → Type 0
IsFresh key m = (id : ℕ) (c : Channel) → get m id ≡ some c → (id ≡ 0) ⊎ (c.key ≢ key)

granted_low :
    (b : ShardBuilder) (ids : IdAllocator) (key id : ℕ)
    → IsAllocator ids
    → allocated_channel ids b.shard key ≡ some id
    → 1 ≤ id
unfolding allocated_channel
granted_low b ids key id v h = low ids.next_channel (v.channels.spent (b.shard, key) id h)
  where
    low : (next : Option ℕ) → Spent next id → 1 ≤ id
    low none s = s.0
    low (some n) s = s.0

-- The id of a fresh key is on no channel of the view.
granted_absent :
    (b : ShardBuilder) (ids : IdAllocator) (key id : ℕ)
    → IsCoherent b
    → IsAllocator ids
    → Keeps b.ids ids b.shard
    → IsFresh key b.view.channels
    → allocated_channel ids b.shard key ≡ some id
    → get b.view.channels id ≡ none
unfolding allocated_channel
granted_absent b ids key id c v keeps fresh granted = elim (Option-cases (get b.view.channels id)) [
  | inl absent ↦ absent
  | inr (e, there) ↦
      let low = granted_low b ids key id v granted in
      elim (c.known id e there) [
        | inl zero_id ↦ absurd (omega arith)
        | inr (seen, old) ↦
            let same =
              v.channels.injective (b.shard, e.key) (b.shard, key) id (keeps e.key id old)
                granted in
            elim (fresh id e there) [
              | inl zero_id ↦ absurd (omega arith)
              | inr other ↦ absurd (other (ap (λ k. k.1) same))
            ]
      ]
]

channel_allocated-IsPlacing :
    (b : ShardBuilder) (parent : ChannelRef) (key : ℕ) (name : String) (scope : Scope)
    → IsPlaced b.view.channels parent
    → IsNarrowed parent.scope scope
    → contains b.keys_seen key ≡ true
    → IsFresh key b.view.channels
    → IsCoherent b
    → IsPlacing b (channel_allocated b parent key name scope)
unfolding channel_allocated fail
channel_allocated-IsPlacing b parent key name scope p n seen fresh c =
    let ids = (allocate_channel b.ids b.shard key).0 in
    let v = channel-IsAllocator b.ids b.shard key c.allocator in
    let keeps : Keeps b.ids ids b.shard =
      λ key' id h. channel-keeps b.ids b.shard key b.shard key' id h in
    let c' = Coherent-ids b.ids ids b.shard b.keys_seen b.rooted b.view v keeps c in
    elim (Result-cases (allocate_channel b.ids b.shard key).1) [
      | inl (id, granted) ↦
          let known = channel-grants b.ids b.shard key id granted in
          let absent = granted_absent b ids key id c v keeps fresh known in
          let done =
            place_channel-IsPlacing (record b { ids = ids }) parent key id scope name p n absent
              (granted_low b ids key id v known) seen known c' in
          rw (granted, channel_allocated)
            (record {
              step = record { coherent = done.step.coherent; extends = done.step.extends };
              placed = done.placed;
            })
      | inr (e, refused) ↦
          rw (refused, channel_allocated)
            (record {
              step = record { coherent = c'; extends = Extends-refl b.view.channels };
              placed = p;
            })
    ]

channel_keyed-IsPlacing :
    (b : ShardBuilder) (parent : ChannelRef) (key : ℕ) (name : String) (scope : Scope)
    → IsPlaced b.view.channels parent
    → IsNarrowed parent.scope scope
    → IsCoherent b
    → IsPlacing b (channel_keyed b parent key name scope)
unfolding channel_keyed fail
channel_keyed-IsPlacing b parent key name scope p n c =
    elim (Bool-cases (contains b.keys_seen key)) [
      | inl twice ↦
          rw (twice, channel_keyed)
            (record {
              step = record { coherent = c; extends = Extends-refl b.view.channels };
              placed = p;
            })
      | inr new ↦
          let keys = set_insert key b.keys_seen in
          let has : (k : ℕ) → contains keys k ≡ ((key ==ℕ k) || contains b.keys_seen k) =
            contains-set_insert key b.keys_seen in
          let c' : IsCoherent (record b { keys_seen = keys }) = record {
            allocator = c.allocator;
            known = λ id e h. elim (c.known id e h) [
              | inl zero_id ↦ inl zero_id
              | inr (seen, there) ↦ inr (ground (arith, has e.key), there)
            ];
            unrooted = c.unrooted;
            rooted_there = c.rooted_there;
            closed = c.closed;
          } in
          let fresh : IsFresh key b.view.channels = λ id e h. elim (c.known id e h) [
            | inl zero_id ↦ inl zero_id
            | inr (seen, there) ↦ inr (λ k. let s = ap (contains b.keys_seen) k in cc)
          ] in
          let done =
            channel_allocated-IsPlacing (record b { keys_seen = keys }) parent key name scope p n
              (ground (arith, has key)) fresh c' in
          rw (new, channel_keyed)
            (record {
              step = record { coherent = done.step.coherent; extends = done.step.extends };
              placed = done.placed;
            })
    ]

-- A child channel: the view stays closed, nothing rendered before is lost, and the handle that is
-- returned names a channel of the view, even where the call was refused.
pub channel-IsPlacing :
    (b : ShardBuilder) (parent : ChannelRef) (key : ℕ) (name : String) (narrow : Narrow)
    → IsCoherent b
    → IsPlaced b.view.channels parent
    → IsPlacing b (channel b parent key name narrow)
unfolding channel
channel-IsPlacing b parent key name narrow c p =
    let context = channel_named name in
    let s = narrowed-IsStep b parent.scope narrow context c in
    let b' = (narrowed b parent.scope narrow context).0 in
    let p' = IsPlaced-Extends b.view.channels b'.view.channels parent s.extends p in
    elim (Option-cases (narrowed b parent.scope narrow context).1) [
      | inl deep ↦ rw (deep, channel) (record { step = s; placed = p' })
      | inr (scope, there) ↦
          let n =
            narrowed-IsNarrowed b parent.scope narrow context scope (placed-IsScope b parent c p)
              there in
          let done = channel_keyed-IsPlacing b' parent key name scope p' n s.coherent in
          rw (there, channel)
            (record { step = then-IsStep b b' _ s done.step; placed = done.placed })
    ]
