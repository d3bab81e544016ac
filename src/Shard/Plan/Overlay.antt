-- ===== src/Shard/Plan/Overlay.antt =====
-- runtime/crates/shard/src/plan.rs: planning the transition of one connection's overlay.
pub mod Users
pub mod Channels
use Prim.Native.Nat.{compare, Ordering}
use Prim.Native.Nat.Ordering.{lt, eq, gt}
use mumble_server_runtime.Base.{
  ℕ, zero, suc, ◌+◌, ◌-◌, ◌^◌, ◌≡◌, refl, ap₂, ◌∙◌, Bool, true, false, not, Option, none, some,
  List, [], ◌∷◌, ◌++◌, arith, length, min, filter, filter-append, filter_skip_if, map, nat_eq, ◌==◌,
  if◌then◌else◌, Bool-cases, inl, inr,
}
use mumble_server_runtime.Base.Assoc.{Assoc, get}
use mumble_server_runtime.Base.Order.{contains, nat_order, sort_by}
use mumble_server_runtime.Shard.View.{Channel, User, Overlay, empty}
use mumble_server_runtime.Shard.Plan.{
  PlanOp, create_channel, update_channel, add_user, move_user, update_user, remove_user,
  remove_channel, is_removal, channel_patch, channel_is_noop, user_patch, user_is_noop, is_nil,
}
use mumble_server_runtime.Shard.Plan.Ordering.{order_creations}
use mumble_server_runtime.Shard.Compose.{OverlayOps}

-- `OverlayOps::is_empty`
abbrev none_planned : List PlanOp → Bool
none_planned [] = true
none_planned (op ∷ ops) = false

unfoldable pub is_empty_ops : OverlayOps → Bool
is_empty_ops ops = if none_planned ops.additions then none_planned ops.removals else false

abbrev u32_max : ℕ
u32_max = 2 ^ 32 - 1

-- The walk up the overlay's own channels; `guard` holds those that were visited.
overlay_walk : ℕ → Assoc ℕ Channel → List ℕ → ℕ → ℕ → ℕ
unfolding get
overlay_walk zero channels guard current depth = depth
overlay_walk (suc fuel) channels guard current depth = elim (contains guard current) [
  | true ↦ depth
  | false ↦ elim (get channels current) [
    | none ↦ depth
    | some entry ↦ elim (entry.parent == current) [
      | true ↦ depth
      | false ↦ overlay_walk fuel channels (current ∷ guard) entry.parent (min (depth + 1) u32_max)
    ]
  ]
]

-- A turn that goes on visits a channel of the overlay for the first time.
unfoldable pub overlay_depth : Assoc ℕ Channel → ℕ → ℕ
unfolding overlay_walk
overlay_depth channels channel = overlay_walk (length channels + 1) channels [] channel 0

pub record ElementPhases : Type 0 where
  pub creates : List Channel
  pub updates : List PlanOp

unfoldable pub element_step : Channel → Option Channel → ElementPhases → ElementPhases
unfolding channel_patch channel_is_noop
element_step new none rest = record rest { creates = new ∷ rest.creates }
element_step new (some old) rest =
    let patch = channel_patch old new in
    record rest {
      updates = if channel_is_noop patch then rest.updates else update_channel patch ∷ rest.updates;
    }

-- The loop over the channels of `after`.
element_phases : Assoc ℕ Channel → Assoc ℕ Channel → ElementPhases
unfolding element_step get
element_phases before [] = record { creates = []; updates = [] }
element_phases before ((id, new) ∷ after) =
    element_step new (get before id) (element_phases before after)

-- The keys of the one that are not keys of the other.
pub withdrawn {ℓ} : {V : Type ℓ} → Assoc ℕ V → Assoc ℕ V → List ℕ
unfolding get
withdrawn [] after = []
withdrawn ((id, old) ∷ before) after =
    let rest = withdrawn before after in elim (get after id) [ none ↦ id ∷ rest | some _ ↦ rest ]

unfoldable pub trailing_step : User → Option User → ℕ → List PlanOp → List PlanOp
unfolding user_patch user_is_noop
trailing_step new none session rest = add_user new ∷ rest
trailing_step new (some old) session rest =
    let patch = user_patch old new in
    let updated = if user_is_noop patch then rest else update_user patch ∷ rest in
    if old.channel == new.channel then updated else move_user session new.channel ∷ updated

-- The loop over the users of `after`.
trailing : Assoc ℕ User → Assoc ℕ User → List PlanOp
unfolding trailing_step get
trailing before [] = []
trailing before ((session, new) ∷ after) =
    trailing_step new (get before session) session (trailing before after)

abbrev then_by : Ordering → Ordering → Ordering
then_by eq o = o
then_by o _ = o

abbrev deeper_first : ℕ × ℕ → ℕ × ℕ → Ordering
deeper_first left right = then_by (compare right.1 left.1) (compare left.0 right.0)

unfoldable pub plan_elements : Overlay → Overlay → OverlayOps
unfolding element_phases withdrawn trailing order_creations overlay_depth sort_by
plan_elements before after =
    let channels = element_phases before.channels after.channels in
    let with_depth =
      map (λ id. (id, overlay_depth before.channels id))
        (withdrawn before.channels after.channels) in
    record {
      additions =
          map create_channel (order_creations channels.creates empty)
          ++ (channels.updates ++ trailing before.users after.users);
      removals =
          map remove_user (withdrawn before.users after.users)
          ++ map (λ (r : ℕ × ℕ). remove_channel r.0) (sort_by deeper_first with_depth);
    }
