-- ===== src/Shard/Turn/Steady.antt =====
-- A whole turn, whatever a flavor renders by the calls of the builder: what the connections in step
-- with the shard are sent.
use mumble_server_runtime.Base.{
  ℕ, ◌+◌, ◌<◌, ◌-◌, ◌≡◌, refl, sym, subst, ap, ap₂, ◌∙◌, true, false, ◌⊎◌, inl, inr, none, some,
  List, [], ◌∷◌, arith, ok, length, min, ltb, filter, nat_eq, Bool-cases, Option-cases,
}
use mumble_server_runtime.Base.Assoc.{Assoc, get, keys, values}
use mumble_server_runtime.Base.Order.{nat_order, contains, contains-filter}
use mumble_server_runtime.Shard.Ids.{retain_channels}
use mumble_server_runtime.Shard.Ids.Operations.{IsAllocator}
use mumble_server_runtime.Shard.ScopeSet.{ScopeSet}
use mumble_server_runtime.Shard.View.{empty_overlay}
use mumble_server_runtime.Shard.Plan.{PlannedOp, plan}
use mumble_server_runtime.Shard.Journal.{Journal, u64_max, history_depth, saturating_suc, replay}
use mumble_server_runtime.Shard.Journal.Window.{IsWindow}
use mumble_server_runtime.Shard.Journal.Replay.{slice_empty, replay-IsWindow}
use mumble_server_runtime.Shard.Queue.{Mpsc}
use mumble_server_runtime.Shard.Build.{Rendered, ShardBuilder}
use mumble_server_runtime.Shard.Build.Builder.{or_default}
use mumble_server_runtime.Shard.Build.Calls.{Call, calls}
use mumble_server_runtime.Shard.Build.Overlays.{keys-contains}
use mumble_server_runtime.Shard.Turn.{Emitter, AttachedConnection}
use mumble_server_runtime.Shard.Turn.Presence.{retained_keys, retained_overlays}
use mumble_server_runtime.Shard.Turn.Shown.{IsIndexed}
use mumble_server_runtime.Shard.Turn.Caught.{IsLayered, replay_latest}
use mumble_server_runtime.Shard.Turn.Reconcile.{
  Logic, Shard, has_moved, is_quiet, serve, publish, route, apply_render, conclude,
}
use mumble_server_runtime.Shard.Turn.Served.{InStep, Reached, serve-Reached, get-serve_all}
use mumble_server_runtime.Shard.Turn.Versions.{route-keeps}

-- A flavor renders by the calls of the builder, and names in its shared calls the handles that shared
-- calls returned.
abbrev pub IsFlavor : {L : Type 0} → Logic L → Type 0
IsFlavor {L = L} logic =
    (l : L) (b : ShardBuilder)
    → (cs : List Call) × ((logic.render l b).1
        ≡ (calls (record { builder = b; handles = [] }) cs).builder)

-- The journal is the window of as many deltas as the version says, and the view is indexed.
pub record IsSteady {M L : Type 0} (c : Mpsc M) (s : Shard c L) : Type 0 where
  pub history : List (List PlannedOp)
  pub window : IsWindow history s.journal
  pub counted : length history ≡ s.version
  pub allocator : IsAllocator s.ids
  pub indexed : IsIndexed s.view

replay_none :
    {Op : Type 0} (history : List (List Op)) (j : Journal Op)
    → IsWindow history j
    → replay j (length history) (length history) ≡ ok []
replay_none history j w =
    let near : ltb (length history) (length history - history_depth) ≡ false = ground arith in
    let top : min (length history) (length history) ≡ length history = omega arith in
    replay-IsWindow history j (length history) (length history) w
    ∙ rw (near, top, slice_empty (length history) (length history) history (omega arith)) refl

module _ {M : Type 0} (c : Mpsc M) where
  has_moved-held :
      (connections : Assoc ℕ (AttachedConnection c)) (observations : Assoc ℕ ScopeSet) (id : ℕ)
      (a : AttachedConnection c)
      → get connections id ≡ some a
      → has_moved c connections observations id ≡ false
      → a.held ≡ none
  unfolding has_moved
  has_moved-held connections observations id a there h = elim (Option-cases a.held) [
    | inl free ↦ free
    | inr (held, holding) ↦ let h' = rw (there, holding, has_moved) at h in cc
  ]

module _ {M L : Type 0} (c : Mpsc M) where
  -- Whoever is at the version before gets the operations of the turn.
  replay-publish :
      (s : Shard c L) (ops : List PlannedOp)
      → IsSteady c s
      → s.version < u64_max
      → replay (publish c s ops).journal s.version (publish c s ops).version ≡ ok ops
  unfolding publish
  replay-publish s [] v room =
      subst (λ n. replay s.journal n n ≡ ok []) v.counted (replay_none v.history s.journal v.window)
  replay-publish s (op ∷ ops) v room =
      let next : saturating_suc s.version ≡ length v.history + 1 = omega (arith, v.counted) in
      rw (next, sym v.counted)
        (replay_latest v.history s.journal (op ∷ ops) (omega (arith, v.counted)) v.window)

  pub route-view : (s : Shard c L) (rendered : Rendered) → (route c s rendered).0.view ≡ s.view
  unfolding route
  route-view s rendered = ground arith

  -- A connection of the shard under its own id, in step with it.
  pub record IsCurrent (s : Shard c L) (id : ℕ) (a : AttachedConnection c) : Type 0 where
    pub there : get s.connections id ≡ some a
    pub own : a.id ≡ id
    pub in_step : InStep c s.view s.version a

  -- What a turn comes to for a connection: it is as before, and so are the view and the version; or
  -- nothing reached its queue; or it was served.
  pub record IsTurned (e : Emitter M) (s t : Shard c L) (id : ℕ) (a : AttachedConnection c)
      : Type 0 where
    pub after : AttachedConnection c
    pub there : get t.connections id ≡ some after
    pub result :
        ((after ≡ a) × (t.view ≡ s.view) × (t.version ≡ s.version))
        ⊎ Reached c e s.view t.view t.version a after

  module _ (e : Emitter M) (s : Shard c L) (observations : Assoc ℕ ScopeSet) (rendered : Rendered)
      (steady : IsSteady c s) (room : s.version < u64_max) (indexed : IsIndexed rendered.view)
      (layered : (id : ℕ)
        → IsLayered rendered.view (or_default empty_overlay (get rendered.overlays id))) where
    apply_render-IsTurned :
        (moved : List ℕ) (id : ℕ) (a : AttachedConnection c)
        → (contains moved a.id ≡ false → a.held ≡ none)
        → IsCurrent s id a
        → IsTurned e s
            (apply_render c e s observations rendered (plan s.view rendered.view) moved).0
            id
            a
    unfolding apply_render
    apply_render-IsTurned moved id a fast v =
        let ops = plan s.view rendered.view in
        let published = publish c s ops in
        let retained =
          retained_overlays (retained_keys [] (values rendered.view.channels)) rendered.overlays in
        let viewed : Shard c L = record published {
          view = rendered.view;
          ids = retain_channels published.ids published.id retained;
        } in
        let routed = (route c viewed rendered).0 in
        let (version, journal, connections) = route-keeps c viewed rendered in
        let view : routed.view ≡ rendered.view = route-view viewed rendered in
        let found : replay routed.journal s.version routed.version ≡ ok (plan s.view routed.view) =
          ap₂ (λ j n. replay j s.version n) journal version
          ∙ replay-publish s ops steady room
          ∙ ap (λ w. ok (plan s.view w)) (sym view) in
        let f =
          serve c e s.view routed.view routed.journal routed.version observations rendered moved in
        record {
          after = _;
          there =
              get-serve_all c f routed.connections [] id a
                (ap (λ m. get m id) (connections ∙ publish-connections s ops) ∙ v.there);
          result = inr (
              serve-Reached c e s.view routed.view routed.journal s.version routed.version
                observations rendered moved a steady.indexed (subst IsIndexed (sym view) indexed)
                (subst (λ w. IsLayered w (or_default empty_overlay (get rendered.overlays a.id)))
                  (sym view) (layered a.id))
                found fast v.in_step);
        }
      where
        publish-connections :
            (s : Shard c L) (ops : List PlannedOp) → (publish c s ops).connections ≡ s.connections
        publish-connections s [] = unfold publish in refl
        publish-connections s (op ∷ ops) = unfold publish in refl

    pub conclude-IsTurned :
        (id : ℕ) (a : AttachedConnection c)
        → IsCurrent s id a
        → IsTurned e s (conclude c e s observations (keys s.connections) (ok rendered)).0 id a
    unfolding conclude
    conclude-IsTurned id a v =
        let ops = plan s.view rendered.view in
        let attached = keys s.connections in
        let moves = has_moved c s.connections observations in
        let moved = filter moves attached in
        elim (Bool-cases (is_quiet c s rendered attached moved ops)) [
          | inl quiet ↦
              rw (quiet, conclude)
                (record { after = a; there = v.there; result = inl (refl, refl, refl) })
          | inr busy ↦
              let present : contains attached id ≡ true =
                keys-contains s.connections id a v.there in
              let same = contains-filter moves attached id in
              rw (busy, conclude)
                (apply_render-IsTurned moved id a
                  (λ out.
                    let out' : contains moved id ≡ false = ap (contains moved) (sym v.own) ∙ out in
                    has_moved-held c s.connections observations id a v.there
                      (ground (arith, same, out', present)))
                  v)
        ]
