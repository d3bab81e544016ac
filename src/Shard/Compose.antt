-- ===== src/Shard/Compose.antt =====
-- runtime/crates/shard/src/compose.rs: one connection's transition out of the shared delta.
pub mod Order
use mumble_server_runtime.Base.{
  ℕ, zero, suc, ◌+◌, ◌≡◌, ◌↔◌, Bool, true, false, not, ◌||◌, Option, none, some, List, [], ◌∷◌,
  ◌++◌, arith, length, take, drop, any, filter, Eq, nat_eq, ◌==◌, if◌then◌else◌,
}
use mumble_server_runtime.Shard.ScopeSet.{ScopeSet, sees}
use mumble_server_runtime.Shard.Plan.{
  PlanOp, PlannedOp, ElementId, channel_element, user_element, added, removed, is_removal,
}

abbrev pub element_beq : ElementId → ElementId → Bool
element_beq (channel_element a) (channel_element b) = a == b
element_beq (user_element a) (user_element b) = a == b
element_beq _ _ = false

pub element_beq_iff : (a b : ElementId) → (element_beq a b ≡ true) ↔ (a ≡ b)
element_beq_iff (channel_element a) (channel_element b) = ground arith
element_beq_iff (channel_element a) (user_element b) = ground arith
element_beq_iff (user_element a) (channel_element b) = ground arith
element_beq_iff (user_element a) (user_element b) = ground arith

instance abbrev pub element_eq : Eq ElementId
element_eq = record { beq = element_beq; beq_iff = element_beq_iff }

-- `filter`: the operations that the connection can see.
unfoldable pub filter_ops : List PlannedOp → ScopeSet → List PlanOp
filter_ops [] see = []
filter_ops (p ∷ ops) see =
    let rest = filter_ops ops see in if sees see p.scope then p.op ∷ rest else rest

pub record OverlayOps : Type 0 where
  pub additions : List PlanOp
  pub removals : List PlanOp

-- `position(..).unwrap_or(len)`
position_of_removal : List PlanOp → ℕ
position_of_removal [] = 0
position_of_removal (op ∷ ops) = if is_removal op then 0 else suc (position_of_removal ops)

unfoldable pub splice : List PlanOp → OverlayOps → List PlanOp
unfolding position_of_removal is_removal
splice shared overlay =
    let boundary = position_of_removal shared in
    take boundary shared ++ (overlay.removals ++ (overlay.additions ++ drop boundary shared))

infix 50 ◌is_added_by◌
abbrev pub ◌is_added_by◌ : ElementId → PlanOp → Bool
id is_added_by op = elim (added op) [ none ↦ false | some a ↦ element_beq a id ]

-- The set of the elements that are added.
abbrev pub added_contains : List PlanOp → ElementId → Bool
added_contains ops id = any (λ op. id is_added_by op) ops

abbrev pub kept : List PlanOp → PlanOp → Bool
kept ops op = elim (removed op) [ none ↦ true | some id ↦ not (added_contains ops id) ]

unfoldable pub collapse : List PlanOp → List PlanOp
unfolding removed added
collapse ops = filter (kept ops) ops
