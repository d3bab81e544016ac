-- ===== src/Shard/Compose/Order.antt =====
-- The order of an observer's transition, and what `collapse` leaves of it.
use mumble_server_runtime.Base.{
  ◌≡◌, refl, sym, ap, ap₂, ◌∙◌, inl, inr, Bool, true, not, List, [], ◌∷◌, ◌++◌, arith, filter,
  filter-append, filter-filter_comm, take-append-drop, take, drop, Bool-cases, subst,
}
use mumble_server_runtime.Shard.ScopeSet.{ScopeSet}
use mumble_server_runtime.Shard.View.{ShardView}
use mumble_server_runtime.Shard.Plan.{PlanOp, PlannedOp, is_removal, plan}
use mumble_server_runtime.Shard.Plan.Phases.{plan_phased}
use mumble_server_runtime.Shard.Compose.{filter_ops, OverlayOps, splice, position_of_removal}

abbrev pub adds : PlanOp → Bool
adds op = not (is_removal op)

-- No operation after a removal is anything else.
abbrev pub IsPhased : List PlanOp → Type 0
IsPhased [] = Unit
IsPhased (op ∷ ops) = (is_removal op ≡ true → filter adds ops ≡ []) × IsPhased ops

-- Splitting at the first removal.
take-position :
    (ops : List PlanOp) → IsPhased ops → take (position_of_removal ops) ops ≡ filter adds ops
unfolding position_of_removal
take-position [] h = refl
take-position (op ∷ ops) h = elim (Bool-cases (is_removal op)) [
  | inl r ↦ rw r (sym (h.0 r))
  | inr a ↦ rw a (ap (op ∷◌) (take-position ops h.1))
]

all_removals : (ops : List PlanOp) → filter adds ops ≡ [] → filter is_removal ops ≡ ops
all_removals [] h = refl
all_removals (op ∷ ops) h = ground (arith, all_removals ops)

drop-position :
    (ops : List PlanOp) → IsPhased ops → drop (position_of_removal ops) ops ≡ filter is_removal ops
unfolding position_of_removal
drop-position [] h = refl
drop-position (op ∷ ops) h = elim (Bool-cases (is_removal op)) [
  | inl r ↦ rw r (ap (op ∷◌) (sym (all_removals ops (h.0 r))))
  | inr a ↦ rw a (drop-position ops h.1)
]

splice_phased :
    (shared : List PlanOp) (overlay : OverlayOps)
    → IsPhased shared
    → splice shared overlay
      ≡ filter adds shared ++ (overlay.removals ++ (overlay.additions ++ filter is_removal shared))
unfolding splice
splice_phased shared overlay h =
    ap₂ (λ xs ys. xs ++ (overlay.removals ++ (overlay.additions ++ ys))) (take-position shared h)
      (drop-position shared h)

back-IsPhased : (ys : List PlanOp) → filter adds ys ≡ [] → IsPhased ys
back-IsPhased [] h = tt
back-IsPhased (op ∷ ops) h = elim (Bool-cases (is_removal op)) [
  | inl r ↦ let e : filter adds ops ≡ [] = ground arith in (λ _. e, back-IsPhased ops e)
  | inr a ↦ ground arith
]

append-IsPhased :
    (xs ys : List PlanOp) → filter is_removal xs ≡ [] → filter adds ys ≡ [] → IsPhased (xs ++ ys)
append-IsPhased [] ys h k = back-IsPhased ys k
append-IsPhased (op ∷ ops) ys h k = elim (Bool-cases (is_removal op)) [
  | inl r ↦ ground arith
  | inr a ↦
      let e : filter is_removal ops ≡ [] = ground arith in
      (λ r. ground arith, append-IsPhased ops ys e k)
]

filter_ops-append :
    (xs ys : List PlannedOp) (see : ScopeSet)
    → filter_ops (xs ++ ys) see ≡ filter_ops xs see ++ filter_ops ys see
unfolding filter_ops
filter_ops-append [] ys see = refl
filter_ops-append (p ∷ xs) ys see = ground (arith, filter_ops-append xs ys see)

filter_ops-nil :
    (mine : PlanOp → Bool) (ops : List PlannedOp) (see : ScopeSet)
    → filter (λ (p : PlannedOp). mine p.op) ops ≡ []
    → filter mine (filter_ops ops see) ≡ []
unfolding filter_ops
filter_ops-nil mine [] see h = refl
filter_ops-nil mine (p ∷ ops) see h = ground (arith, filter_ops-nil mine ops see)

pub observed-IsPhased :
    (before after : ShardView) (see : ScopeSet) → IsPhased (filter_ops (plan before after) see)
observed-IsPhased before after see =
    let s = plan_phased before after in
    let e = ap (λ ops. filter_ops ops see) s.joined ∙ filter_ops-append s.front s.back see in
    subst IsPhased (sym e) (
      append-IsPhased (filter_ops s.front see) (filter_ops s.back see)
        (filter_ops-nil is_removal s.front see s.front_keeps)
        (filter_ops-nil adds s.back see s.back_removes))

-- The overlay's operations are spliced into what an observer sees of a plan between the last
-- creation or change and the first removal, the overlay's removals before its additions; the
-- plan's own operations keep their order.
pub splice-plan :
    (before after : ShardView) (see : ScopeSet) (overlay : OverlayOps)
    → let shared = filter_ops (plan before after) see in
      splice shared overlay
      ≡ filter (λ op. not (is_removal op)) shared
        ++ (overlay.removals ++ (overlay.additions ++ filter is_removal shared))
splice-plan before after see overlay =
    splice_phased (filter_ops (plan before after) see) overlay (observed-IsPhased before after see)

filter-adds_none :
    (mine : PlanOp → Bool) (ops : List PlanOp)
    → filter adds ops ≡ []
    → filter adds (filter mine ops) ≡ []
filter-adds_none mine [] h = refl
filter-adds_none mine (op ∷ ops) h = ground (arith, filter-adds_none mine ops)

filter-IsPhased :
    (mine : PlanOp → Bool) (ops : List PlanOp) → IsPhased ops → IsPhased (filter mine ops)
filter-IsPhased mine [] h = tt
filter-IsPhased mine (op ∷ ops) h = elim (Bool-cases (mine op)) [
  | inl own ↦ rw own (λ r. filter-adds_none mine ops (h.0 r), filter-IsPhased mine ops h.1)
  | inr foreign ↦ rw foreign (filter-IsPhased mine ops h.1)
]

rejoined : (ops : List PlanOp) → IsPhased ops → filter adds ops ++ filter is_removal ops ≡ ops
rejoined ops h =
    ap₂ ◌++◌ (sym (take-position ops h)) (sym (drop-position ops h))
    ∙ take-append-drop (position_of_removal ops) ops

-- Of the spliced operations, those that a test picks out: it may be applied before splicing.
pub filter-splice :
    (mine : PlanOp → Bool) (before after : ShardView) (see : ScopeSet) (overlay : OverlayOps)
    → let own = filter mine (filter_ops (plan before after) see) in
      filter mine (splice (filter_ops (plan before after) see) overlay)
      ≡ filter adds own
        ++ (filter mine overlay.removals
            ++ (filter mine overlay.additions ++ filter is_removal own))
filter-splice mine before after see overlay =
    let shared = filter_ops (plan before after) see in
    let removed_shared = filter is_removal shared in
    ap (filter mine) (splice-plan before after see overlay)
    ∙ filter-append mine (filter adds shared)
        (overlay.removals ++ (overlay.additions ++ removed_shared))
    ∙ ap₂ ◌++◌ (filter-filter_comm mine adds adds shared (λ x h. refl)) (
        filter-append mine overlay.removals (overlay.additions ++ removed_shared)
        ∙ ap (filter mine overlay.removals ++◌) (
            filter-append mine overlay.additions removed_shared
            ∙ ap (filter mine overlay.additions ++◌)
                (filter-filter_comm mine is_removal is_removal shared (λ x h. refl))))

-- An observer's own operations of one element, split at the removals.
pub own_rejoined :
    (mine : PlanOp → Bool) (before after : ShardView) (see : ScopeSet)
    → let own = filter mine (filter_ops (plan before after) see) in
      filter adds own ++ filter is_removal own ≡ own
own_rejoined mine before after see =
    rejoined (filter mine (filter_ops (plan before after) see)) (
      filter-IsPhased mine (filter_ops (plan before after) see)
        (observed-IsPhased before after see))
