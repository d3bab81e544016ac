-- ===== src/Shard/Client/Element.antt =====
-- The effect of an observer's transition on one element, a user or a channel, comes from the
-- operations on that element alone.
use mumble_server_runtime.Base.{
  ◌≡◌, refl, ap, ◌∙◌, ◌++◌, append-nil, inl, inr, Bool, true, false, not, List, [], ◌∷◌, arith,
  filter, filter-filter_comm, Bool-cases,
}
use mumble_server_runtime.Shard.ScopeSet.{ScopeSet}
use mumble_server_runtime.Shard.Plan.{PlanOp, PlannedOp, ElementId, remove_user, remove_channel}
use mumble_server_runtime.Shard.Compose.{filter_ops, added_contains, kept, collapse, ◌is_added_by◌}

-- The operations in turn, each a change of the element's state.
unfoldable pub run : {St : Type 0} → (St → PlanOp → St) → St → List PlanOp → St
run act st [] = st
run act st (op ∷ ops) = run act (act st op) ops

-- What `collapse` keeps of the operations on an element, by whether the element is added.
abbrev pub kept_own : Bool → PlanOp → Bool
kept_own is_added (remove_user session) = not is_added
kept_own is_added (remove_channel id) = not is_added
kept_own is_added _ = true

-- The operations on the element that the observer sees.
abbrev pub own_seen : (PlanOp → Bool) → List PlannedOp → ScopeSet → List PlanOp
own_seen about ops see = filter_ops (filter (λ p. about p.op) ops) see

-- The effect of the element's own operations, once collapsed.
abbrev pub own_collapsed : ElementId → List PlanOp → List PlanOp
own_collapsed element own = filter (kept_own (added_contains own element)) own

module _ {St : Type 0} (about : PlanOp → Bool) (act : St → PlanOp → St) (element : ElementId)
    (other : (st : St) (op : PlanOp) → about op ≡ false → act st op ≡ st)
    (not_added : (op : PlanOp) → about op ≡ false → (element is_added_by op) ≡ false)
    (own_kept : (ops : List PlanOp) (op : PlanOp)
      → about op ≡ true
      → kept ops op ≡ kept_own (added_contains ops element) op) where
  run-about : (ops : List PlanOp) (st : St) → run act st ops ≡ run act st (filter about ops)
  unfolding run
  run-about [] st = refl
  run-about (op ∷ ops) st = elim (Bool-cases (about op)) [
    | inl mine ↦ rw mine (run-about ops (act st op))
    | inr foreign ↦ rw (foreign, other st op foreign) (run-about ops st)
  ]

  pub about-filter_ops :
      (ops : List PlannedOp) (see : ScopeSet)
      → filter about (filter_ops ops see) ≡ own_seen about ops see
  unfolding filter_ops
  about-filter_ops [] see = refl
  about-filter_ops (p ∷ ops) see = ground (arith, about-filter_ops ops see)

  added_contains-about :
      (ops : List PlanOp) → added_contains ops element ≡ added_contains (filter about ops) element
  added_contains-about [] = refl
  added_contains-about (op ∷ ops) = ground (arith, not_added op, added_contains-about ops)

  pub collapse_effect :
      (ops : List PlanOp) (st : St)
      → run act st (collapse ops) ≡ run act st (own_collapsed element (filter about ops))
  unfolding collapse
  collapse_effect ops st =
      run-about (filter (kept ops) ops) st
      ∙ ap (run act st) (
          filter-filter_comm about (kept ops) (kept_own (added_contains ops element)) ops
            (own_kept ops)
          ∙ ap (λ b. filter (kept_own b) (filter about ops)) (added_contains-about ops))

  pub own_effect :
      (ops : List PlannedOp) (see : ScopeSet) (st : St)
      → run act st (collapse (filter_ops ops see))
        ≡ run act st (own_collapsed element (own_seen about ops see))
  own_effect ops see st =
      collapse_effect (filter_ops ops see) st
      ∙ ap (λ own. run act st (own_collapsed element own)) (about-filter_ops ops see)

-- Operations none of which removes the element are kept whole.
pub all_kept :
    {St : Type 0} (act : St → PlanOp → St) (element : ElementId) (st : St) (ops : List PlanOp)
    → ((b : Bool) → filter (kept_own b) ops ≡ ops)
    → run act st (own_collapsed element (ops ++ [])) ≡ run act st ops
all_kept act element st ops h =
    ap (λ l. run act st (own_collapsed element l)) (append-nil ops)
    ∙ ap (run act st) (h (added_contains ops element))
