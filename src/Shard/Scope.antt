-- ===== src/Shard/Scope.antt =====
-- runtime/crates/shard/src/scope.rs: `Scope`. A `u32` segment is a natural number, and the array of
-- segments a list of `max_depth` of them.
pub mod Paths
pub mod Visibility
mod Examples
use mumble_server_runtime.Base.{
  ℕ, ◌+◌, ◌≡◌, ◌↔◌, Bool, true, ◌&&◌, ◌||◌, Option, none, some, List, arith, leb, take, set,
  replicate, if◌then◌else◌, list_beq, list_beq_iff, nat_eq, Eq, ◌==ℕ◌, min,
}
use mumble_server_runtime.Base.Order.{
  Order, list_cmp, list_cmp-eq, list_cmp-gt, list_cmp_trans, nat_order,
}
use Prim.Native.Nat.{compare, Ordering}
use Prim.Native.Nat.Ordering.{lt, eq, gt}

abbrev pub max_depth : ℕ
max_depth = 4

pub record Scope : Type 0 where
  pub segments : List ℕ
  pub depth : ℕ

abbrev pub root : Scope
root = record { segments = replicate max_depth 0; depth = 0 }

-- `saturating_add` of a `u8`
abbrev saturating_add_u8 : ℕ → ℕ → ℕ
saturating_add_u8 a b = min (a + b) 255

unfoldable pub child : Scope → ℕ → Option Scope
child s segment =
    if leb max_depth s.depth
    then none
    else some
        (record { segments = set s.segments s.depth segment; depth = saturating_add_u8 s.depth 1 })

unfoldable pub is_prefix_of : Scope → Scope → Bool
is_prefix_of s other =
    leb s.depth other.depth && list_beq (take s.depth s.segments) (take s.depth other.segments)

unfoldable pub comparable : Scope → Scope → Bool
unfolding is_prefix_of
comparable s other = is_prefix_of s other || is_prefix_of other s

-- The derived `Ord`: the array first, then the depth.
abbrev then_compare : Ordering → ℕ → ℕ → Ordering
then_compare eq a b = compare a b
then_compare o a b = o

abbrev pub scope_cmp : Scope → Scope → Ordering
scope_cmp s t = then_compare (list_cmp s.segments t.segments) s.depth t.depth

pub scope_cmp-eq : (s t : Scope) → (scope_cmp s t ≡ eq) ↔ (s ≡ t)
scope_cmp-eq s t = ground (arith, list_cmp-eq s.segments t.segments)

pub scope_cmp-gt : (s t : Scope) → (scope_cmp s t ≡ gt) ↔ (scope_cmp t s ≡ lt)
scope_cmp-gt s t = ground (
  arith,
  list_cmp-eq s.segments t.segments,
  list_cmp-eq t.segments s.segments,
  list_cmp-gt s.segments t.segments,
  list_cmp-gt t.segments s.segments,
)

pub scope_cmp_trans : (s t u : Scope) → scope_cmp s t ≡ lt → scope_cmp t u ≡ lt → scope_cmp s u ≡ lt
scope_cmp_trans s t u = ground (
  arith,
  list_cmp-eq s.segments t.segments,
  list_cmp-eq t.segments u.segments,
  list_cmp-eq s.segments u.segments,
  list_cmp_trans s.segments t.segments u.segments,
)

instance abbrev pub scope_order : Order Scope
scope_order = record {
  cmp = scope_cmp;
  cmp_eq = scope_cmp-eq;
  cmp_gt = scope_cmp-gt;
  cmp_trans = scope_cmp_trans;
}

-- The derived `PartialEq`.
abbrev scope_beq : Scope → Scope → Bool
scope_beq s t = list_beq s.segments t.segments && s.depth ==ℕ t.depth

pub scope_beq_iff : (s t : Scope) → (scope_beq s t ≡ true) ↔ (s ≡ t)
scope_beq_iff s t = ground (arith, list_beq_iff s.segments t.segments)

instance abbrev pub scope_eq : Eq Scope
scope_eq = record { beq = scope_beq; beq_iff = scope_beq_iff }
