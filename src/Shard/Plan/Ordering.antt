-- ===== src/Shard/Plan/Ordering.antt =====
-- runtime/crates/shard/src/plan.rs: the order of the created and of the removed channels.
pub mod Permutes
use Prim.Native.Nat.{compare, Ordering}
use Prim.Native.Nat.Ordering.{lt, eq, gt}
use mumble_server_runtime.Base.{
  ℕ, zero, suc, ◌+◌, ◌-◌, ◌^◌, Bool, true, false, ◌||◌, Option, none, some, List, [], ◌∷◌, ◌++◌,
  length, min, nat_eq, ◌==◌, if◌then◌else◌,
}
use mumble_server_runtime.Base.Assoc.{Assoc, get, keys}
use mumble_server_runtime.Base.Order.{contains, nat_order, sort_by}
use mumble_server_runtime.Shard.Scope.{Scope}
use mumble_server_runtime.Shard.View.{Channel, ShardView}

-- One turn of the `while` loop of `order_creations`: what the `for` loop inside it leaves.
pub record Pass : Type 0 where
  pub present : List ℕ
  pub placed : List Channel
  pub waiting : List Channel
  pub progressed : Bool

unfoldable pub creation_pass : List ℕ → List Channel → Pass
creation_pass present [] = record {
  present = present;
  placed = [];
  waiting = [];
  progressed = false;
}
creation_pass present (channel ∷ rest) =
    let ready = channel.parent == channel.id || contains present channel.parent in
    let r = creation_pass (if ready then channel.id ∷ present else present) rest in
    if ready
    then record r { placed = channel ∷ r.placed; progressed = true }
    else record r { waiting = channel ∷ r.waiting }

unfoldable pub creation_loop : ℕ → List ℕ → List Channel → List Channel
unfolding creation_pass
creation_loop zero present remaining = remaining
creation_loop (suc fuel) present [] = []
creation_loop (suc fuel) present (channel ∷ rest) =
    let r = creation_pass present (channel ∷ rest) in
    let later = creation_loop fuel r.present r.waiting in
    r.placed ++ (if r.progressed then later else r.waiting)

-- Each turn that progresses places a channel, so there are at most as many turns as channels.
unfoldable pub order_creations : List Channel → ShardView → List Channel
unfolding creation_loop
order_creations created before = creation_loop (length created) (keys before.channels) created

abbrev u32_max : ℕ
u32_max = 2 ^ 32 - 1

-- The walk from a channel to the root; `guard` holds the channels that were visited.
unfoldable pub depth_walk : ℕ → ShardView → List ℕ → ℕ → ℕ → ℕ
unfolding get
depth_walk zero view guard current depth = depth
depth_walk (suc fuel) view guard current depth = elim (current == 0 || contains guard current) [
  | true ↦ depth
  | false ↦ elim (get view.channels current) [
    | none ↦ depth
    | some entry ↦ depth_walk fuel view (current ∷ guard) entry.parent (min (depth + 1) u32_max)
  ]
]

-- A turn that goes on visits a channel of the view for the first time.
unfoldable pub depth_in : ShardView → ℕ → ℕ
unfolding depth_walk
depth_in view channel = depth_walk (length view.channels + 1) view [] channel 0

abbrev then_by : Ordering → Ordering → Ordering
then_by eq o = o
then_by o _ = o

unfoldable pub removal_cmp : ShardView → ℕ × Scope → ℕ × Scope → Ordering
unfolding depth_in
removal_cmp before left right =
    then_by (compare (depth_in before right.0) (depth_in before left.0)) (compare left.0 right.0)

unfoldable pub order_removals : List (ℕ × Scope) → ShardView → List (ℕ × Scope)
unfolding sort_by removal_cmp
order_removals removed before = sort_by (removal_cmp before) removed
