-- ===== src/Shard/Build/Seats.antt =====
-- The builder's other calls: the root, the users, and the changes of what was rendered.
use Prim.Native.String.{String}
use mumble_server_runtime.Base.{
  ℕ, ◌≡◌, refl, sym, ap, ◌∙◌, subst, Bool, true, false, inl, inr, none, some, arith, ◌==◌, nat_eq,
  pair_eq, ==ℕ_iff, Bool-cases, Option-cases, if◌then◌else◌,
}
use mumble_server_runtime.Base.Fallible.{Result-cases}
use mumble_server_runtime.Base.Assoc.{get}
use mumble_server_runtime.Base.Order.{nat_order, contains}
use mumble_server_runtime.Base.Btree.{
  btree_insert, get-btree_insert, update, btree_insert-IsOrdered, update-IsOrdered,
}
use mumble_server_runtime.Shard.Ids.{
  IdAllocator, Occupant, occupant_order, allocated_channel, session,
}
use mumble_server_runtime.Shard.Ids.Operations.{session-IsAllocator, session-channels}
use mumble_server_runtime.Shard.Scope.{Scope, root as root_scope, is_prefix_of}
use mumble_server_runtime.Shard.Scope.Paths.{IsScope-root}
use mumble_server_runtime.Shard.Scope.Visibility.{is_prefix_of_refl}
use mumble_server_runtime.Shard.View.{User, UserFlags, default_flags}
use mumble_server_runtime.Shard.Build.{
  ChannelRef, UserRef, ShardBuilder, duplicate_root, duplicate_occupant, exhausted, Narrow,
  user_named, starting_channel,
}
use mumble_server_runtime.Shard.Build.Builder.{
  fail, narrowed, place_channel, root_ref, root, place_user, user_scoped, unwrap_or, user,
  user_flags,
}
use mumble_server_runtime.Shard.Build.Tree.{
  Node, IsPlaced, Extends-refl, Extends-insert, IsPlaced-Extends, insert-IsTree,
}
use mumble_server_runtime.Shard.Build.Coherent.{
  IsCoherent, Coherent-ids, Coherent-users, IsClosed-channels, Known, Keeps, Seated,
  insert-AllSeated, flags-AllSeated,
}
use mumble_server_runtime.Shard.Build.Steps.{
  IsStep, IsPlacing, then-IsStep, fail-IsStep, narrowed-IsNarrowed, narrowed-IsStep, placed-IsScope,
}

new_root-IsPlacing :
    (b : ShardBuilder) (name : String)
    → get b.view.channels 0 ≡ none
    → IsCoherent b
    → IsPlacing b (place_channel (record b { rooted = true }) 0 0 0 root_scope name, root_ref)
unfolding place_channel
new_root-IsPlacing b name absent c =
    let m = b.view.channels in
    let new = starting_channel 0 0 0 root_scope name in
    let x = Extends-insert m 0 new absent in
    let found : get (btree_insert m 0 new) 0 ≡ some new = get-btree_insert m 0 0 new in
    let node : Node (btree_insert m 0 new) 0 new = record {
      keyed = refl;
      scoped = IsScope-root;
      parent = new;
      there = found;
      narrower = is_prefix_of_refl root_scope;
      linked = λ l h. cc;
    } in
    let known : Known b.ids b.shard b.keys_seen (btree_insert m 0 new) = λ j e h.
      elim (Bool-cases (0 == j)) [
        | inl is ↦ inl (sym ((==ℕ_iff 0 j).0 is))
        | inr other ↦ c.known j e (ground (arith, get-btree_insert m 0 j new))
      ] in
    let placed : IsPlaced (btree_insert m 0 new) root_ref = record {
      channel = new;
      there = found;
      same_scope = refl;
    } in
    let closed =
      IsClosed-channels b.view (btree_insert m 0 new) x
        (btree_insert-IsOrdered m 0 new c.closed.channels_ordered)
        (insert-IsTree m 0 new absent node c.closed.tree) c.closed in
    record {
      step = record {
        coherent = record {
          allocator = c.allocator;
          known = known;
          unrooted = λ r. cc;
          rooted_there = λ r. placed;
          closed = closed;
        };
        extends = x;
      };
      placed = placed;
    }

-- The first root places the root channel; another call of `root` changes nothing but the error.
pub root-IsPlacing : (b : ShardBuilder) (name : String) → IsCoherent b → IsPlacing b (root b name)
unfolding root fail
root-IsPlacing b name c = by_cases b.rooted refl
  where
    by_cases :
        (r : Bool)
        → b.rooted ≡ r
        → IsPlacing b (
            if r
            then (fail b duplicate_root, root_ref)
            else (place_channel (record b { rooted = true }) 0 0 0 root_scope name, root_ref))
    by_cases true e = record { step = fail-IsStep b duplicate_root c; placed = c.rooted_there e }
    by_cases false e = new_root-IsPlacing b name (c.unrooted e) c

place_user-IsStep :
    (b : ShardBuilder) (place : ChannelRef) (who : Occupant) (name : String) (scope : Scope)
    (id : ℕ)
    → IsPlaced b.view.channels place
    → is_prefix_of place.scope scope ≡ true
    → IsCoherent b
    → IsStep b (place_user b place who name scope id).0
unfolding place_user
place_user-IsStep b place who name scope id p n c =
    elim (Bool-cases (contains b.occupants_seen who)) [
      | inl twice ↦ rw (twice, place_user) (fail-IsStep b (duplicate_occupant who) c)
      | inr new ↦
          let u : User = record {
            occupant = who;
            session = id;
            channel = place.id;
            scope = scope;
            name = name;
            flags = default_flags;
          } in
          let seat : Seated b.view.channels id u = record {
            keyed = refl;
            channel = p.channel;
            there = p.there;
            narrower = subst (λ s. is_prefix_of s scope ≡ true) (sym p.same_scope) n;
          } in
          rw (new, place_user)
            (record {
              coherent =
                  Coherent-users b.ids b.shard b.keys_seen b.rooted b.view
                    (btree_insert b.view.users id u)
                    (btree_insert-IsOrdered b.view.users id u c.closed.users_ordered)
                    (insert-AllSeated b.view.channels b.view.users id u seat c.closed.seated) c;
              extends = Extends-refl b.view.channels;
            })
    ]

user_scoped-IsStep :
    (b : ShardBuilder) (place : ChannelRef) (who : Occupant) (name : String) (scope : Scope)
    → IsPlaced b.view.channels place
    → is_prefix_of place.scope scope ≡ true
    → IsCoherent b
    → IsStep b (user_scoped b place who name scope).0
unfolding user_scoped fail allocated_channel
user_scoped-IsStep b place who name scope p n c =
    let ids = (session b.ids who).0 in
    let b' = record b { ids = ids } in
    let table = (session-channels b.ids who).0 in
    let keeps : Keeps b.ids ids b.shard = allocated_kept b.ids ids b.shard table in
    let c' =
      Coherent-ids b.ids ids b.shard b.keys_seen b.rooted b.view
        (session-IsAllocator b.ids who c.allocator) keeps c in
    let s : IsStep b b' = record { coherent = c'; extends = Extends-refl b.view.channels } in
    elim (Result-cases (session b.ids who).1) [
      | inl (id, granted) ↦
          rw (granted, user_scoped)
            (then-IsStep b b' _ s (place_user-IsStep b' place who name scope id p n c'))
      | inr (e, refused) ↦
          let b'' = fail b' (exhausted e) in
          rw (refused, user_scoped)
            (then-IsStep b b'' _ (then-IsStep b b' b'' s (fail-IsStep b' (exhausted e) c'))
              (place_user-IsStep b'' place who name scope 0 p n c'))
    ]
  where
    allocated_kept : (a a' : IdAllocator) (shard : ℕ) → a'.channels ≡ a.channels → Keeps a a' shard
    allocated_kept a a' shard e key id h = ap (λ m. get m (shard, key)) e ∙ h

-- A user stands in the channel it was placed in, under a scope that extends the channel's, even
-- where the narrowing was refused.
pub user-IsStep :
    (b : ShardBuilder) (place : ChannelRef) (who : Occupant) (name : String) (narrow : Narrow)
    → IsCoherent b
    → IsPlaced b.view.channels place
    → IsStep b (user b place who name narrow).0
unfolding user
user-IsStep b place who name narrow c p =
    let context = user_named name in
    let s = narrowed-IsStep b place.scope narrow context c in
    let b' = (narrowed b place.scope narrow context).0 in
    let p' = IsPlaced-Extends b.view.channels b'.view.channels place s.extends p in
    then-IsStep b b' _ s (
      user_scoped-IsStep b' place who name
        (unwrap_or (narrowed b place.scope narrow context).1 place.scope) p'
        (elim (Option-cases (narrowed b place.scope narrow context).1) [
          | inl deep ↦ rw deep (is_prefix_of_refl place.scope)
          | inr (scope, there) ↦
              rw there
                (narrowed-IsNarrowed b place.scope narrow context scope (placed-IsScope b place c p)
                  there).narrower
        ])
        s.coherent)

pub user_flags-IsStep :
    (b : ShardBuilder) (who : UserRef) (flags : UserFlags)
    → IsCoherent b
    → IsStep b (user_flags b who flags)
unfolding user_flags
user_flags-IsStep b who flags c = record {
  coherent =
      Coherent-users b.ids b.shard b.keys_seen b.rooted b.view
        (update b.view.users who.session (λ u. record u { flags = flags }))
        (update-IsOrdered b.view.users who.session _ c.closed.users_ordered)
        (flags-AllSeated b.view.channels b.view.users who.session flags c.closed.seated) c;
  extends = Extends-refl b.view.channels;
}
