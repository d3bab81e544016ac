-- ===== src/Shard/Turn/Reachable.antt =====
-- The shards that the shard's task can reach, and a turn of one of them.
use Prim.Native.String.{String}
use mumble_server_runtime.Base.{
  ℕ, ◌+◌, ◌<◌, ◌≤◌, ◌≡◌, refl, sym, subst, ◌∙◌, Bool, inl, inr, Option, none, List, [], ◌∷◌, ◌++◌,
  arith, Result, ok, err, length, length-append, filter, nat_eq, Bool-cases, Option-cases,
}
use mumble_server_runtime.Base.Fallible.{Result-cases}
use mumble_server_runtime.Base.Assoc.{Assoc, get, keys, values}
use mumble_server_runtime.Base.Order.{nat_order}
use mumble_server_runtime.Shard.Ids.{IdAllocator, connection_of, session, retain_channels}
use mumble_server_runtime.Shard.Ids.Operations.{
  IsAllocator, session-IsAllocator, retain_channels-IsAllocator, retire_channel_ids-IsAllocator,
}
use mumble_server_runtime.Shard.ScopeSet.{ScopeSet}
use mumble_server_runtime.Shard.View.{ShardView}
use mumble_server_runtime.Shard.Plan.{PlannedOp, plan}
use mumble_server_runtime.Shard.Journal.{u64_max}
use mumble_server_runtime.Shard.Journal.Window.{IsWindow, new-IsWindow, push-IsWindow}
use mumble_server_runtime.Shard.Queue.{Mpsc, OutboundQueue}
use mumble_server_runtime.Shard.Build.{BuildError, Rendered}
use mumble_server_runtime.Shard.Build.Builder.{new as new_builder}
use mumble_server_runtime.Shard.Turn.{Emitter, AttachedConnection, push}
use mumble_server_runtime.Shard.Turn.Presence.{retained_keys, retained_overlays}
use mumble_server_runtime.Shard.Turn.Shown.{IsIndexed}
use mumble_server_runtime.Shard.Turn.Layered.{finished-IsIndexed}
use mumble_server_runtime.Shard.Turn.Reconcile.{
  Logic, Shard, observe_all, has_moved, is_quiet, serve, serve_all, publish, route, apply_render,
  conclude, prepare, reconcile,
}
use mumble_server_runtime.Shard.Turn.Attached.{
  Step, attaches, detaches, drained, writes, turns, new, attach, detach, retry, write_out, step,
  steps,
}
use mumble_server_runtime.Shard.Turn.Versions.{route-keeps}
use mumble_server_runtime.Shard.Turn.Steady.{IsFlavor, IsSteady, IsCurrent, IsTurned, route-view}
use mumble_server_runtime.Shard.Turn.Simulated.{
  prepared-IsSteady, flavor-IsRendered, reconcile-IsTurned,
}

module _ {M L : Type 0} (c : Mpsc M) where
  -- Steady, and the version has grown by one at most.
  record Grown (s t : Shard c L) : Type 0 where
    steady : IsSteady c t
    version : t.version ≤ s.version + 1

  -- Nothing but the ids and the connections changed.
  same_state :
      (s t : Shard c L)
      → t.view ≡ s.view
      → t.journal ≡ s.journal
      → t.version ≡ s.version
      → IsAllocator t.ids
      → IsSteady c s
      → Grown s t
  same_state s t view journal version allocator v = record {
    steady = record {
      history = v.history;
      window = subst (λ j. IsWindow v.history j) (sym journal) v.window;
      counted = v.counted ∙ sym version;
      allocator = allocator;
      indexed = subst IsIndexed (sym view) v.indexed;
    };
    version = omega (arith, version);
  }

  publish-Grown :
      (s : Shard c L) (ops : List PlannedOp)
      → s.version < u64_max
      → IsSteady c s
      → Grown s (publish c s ops)
  unfolding publish
  publish-Grown s [] room v = record { steady = v; version = omega arith }
  publish-Grown s (op ∷ ops) room v = record {
    steady = record {
      history = v.history ++ (op ∷ ops) ∷ [];
      window = push-IsWindow v.history s.journal (op ∷ ops) (omega (arith, v.counted)) v.window;
      counted = omega (arith, v.counted, length-append v.history ((op ∷ ops) ∷ []));
      allocator = v.allocator;
      indexed = v.indexed;
    };
    version = omega arith;
  }

  route-ids : (s : Shard c L) (rendered : Rendered) → (route c s rendered).0.ids ≡ s.ids
  unfolding route
  route-ids s rendered = ground arith

  apply_render-Grown :
      (e : Emitter M) (s : Shard c L) (observations : Assoc ℕ ScopeSet) (rendered : Rendered)
      (ops : List PlannedOp) (moved : List ℕ)
      → s.version < u64_max
      → IsIndexed rendered.view
      → IsSteady c s
      → Grown s (apply_render c e s observations rendered ops moved).0
  unfolding apply_render
  apply_render-Grown e s observations rendered ops moved room indexed v =
      let published = publish c s ops in
      let p = publish-Grown s ops room v in
      let retained =
        retained_overlays (retained_keys [] (values rendered.view.channels)) rendered.overlays in
      let viewed : Shard c L = record published {
        view = rendered.view;
        ids = retain_channels published.ids published.id retained;
      } in
      let routed = (route c viewed rendered).0 in
      let (version, journal, connections) = route-keeps c viewed rendered in
      let f =
        serve c e s.view routed.view routed.journal routed.version observations rendered moved in
      let retired = (serve_all c f routed.connections []).2 in
      record {
        steady = record {
          history = p.steady.history;
          window = subst (λ j. IsWindow p.steady.history j) (sym journal) p.steady.window;
          counted = p.steady.counted ∙ sym version;
          allocator = retire_channel_ids-IsAllocator routed.ids routed.id retired (
              subst IsAllocator (sym (route-ids viewed rendered)) (
                retain_channels-IsAllocator published.ids published.id retained
                  p.steady.allocator));
          indexed = subst IsIndexed (sym (route-view c viewed rendered)) indexed;
        };
        version = omega (arith, version, p.version);
      }

  conclude-Grown :
      (e : Emitter M) (s : Shard c L) (observations : Assoc ℕ ScopeSet) (attached : List ℕ)
      (result : Result BuildError Rendered)
      → s.version < u64_max
      → IsSteady c s
      → ((rendered : Rendered) → result ≡ ok rendered → IsIndexed rendered.view)
      → Grown s (conclude c e s observations attached result).0
  unfolding conclude
  conclude-Grown e s observations attached (err why) room v w = record {
    steady = v;
    version = omega arith;
  }
  conclude-Grown e s observations attached (ok rendered) room v w =
      let ops = plan s.view rendered.view in
      let moved = filter (has_moved c s.connections observations) attached in
      elim (Bool-cases (is_quiet c s rendered attached moved ops)) [
        | inl quiet ↦ rw (quiet, conclude) (record { steady = v; version = omega arith })
        | inr busy ↦
            rw (busy, conclude)
              (apply_render-Grown e s observations rendered ops moved room (w rendered refl) v)
      ]

  reconcile-Grown :
      (e : Emitter M) (logic : Logic L) (s : Shard c L)
      → IsFlavor logic
      → s.version < u64_max
      → IsSteady c s
      → Grown s (reconcile c e logic s).0
  unfolding reconcile
  reconcile-Grown e logic s flavor room v =
      let (prepared, observations, result) = prepare c logic s in
      let l = (observe_all logic s.logic (keys s.connections)).0 in
      let b = (logic.render l (new_builder s.ids s.id (keys s.connections))).1 in
      let r = flavor-IsRendered logic l s.ids s.id (keys s.connections) flavor v.allocator in
      let g =
        conclude-Grown e prepared observations (keys s.connections) result room
          (prepared-IsSteady c logic s flavor v)
          (λ rendered found. finished-IsIndexed b observations rendered r.closed found) in
      record { steady = g.steady; version = g.version }

  attach-Grown :
      (s : Shard c L) (id : ℕ) (queue : OutboundQueue c) (held : ShardView) (ready : Bool)
      → IsSteady c s
      → Grown s (attach c s id queue held ready).0
  unfolding attach
  attach-Grown s id queue held ready v =
      let ids = session-IsAllocator s.ids (connection_of id) v.allocator in
      elim (Result-cases (session s.ids (connection_of id)).1) [
        | inl (number, granted) ↦ rw (granted, attach) (same_state s _ refl refl refl ids v)
        | inr (exhausted, refused) ↦ rw (refused, attach) (same_state s _ refl refl refl ids v)
      ]

  detach-Grown :
      (e : Emitter M) (s : Shard c L) (id : ℕ) (reason : String) (handover : Option ℕ)
      → IsSteady c s
      → Grown s (detach c e s id reason handover).0
  unfolding detach
  detach-Grown e s id reason handover v = elim (Option-cases (get s.connections id)) [
    | inl gone ↦ rw (gone, detach) (same_state s s refl refl refl v.allocator v)
    | inr (a, there) ↦ elim (Option-cases handover) [
      | inl leaving ↦ rw (there, leaving, detach) (same_state s _ refl refl refl v.allocator v)
      | inr (to, moving) ↦ rw (there, moving, detach) (same_state s _ refl refl refl v.allocator v)
    ]
  ]

  retry-Grown : (e : Emitter M) (s : Shard c L) (id : ℕ) → IsSteady c s → Grown s (retry c e s id)
  unfolding retry
  retry-Grown e s id v =
      let retire =
        λ (retired : List ℕ). retire_channel_ids-IsAllocator s.ids s.id retired v.allocator in
      elim (Option-cases (get s.connections id)) [
        | inl gone ↦ rw (gone, retry) (same_state s _ refl refl refl (retire []) v)
        | inr (a, there) ↦ elim (Option-cases a.held) [
          | inr (held, holding) ↦
              rw (there, holding, retry) (same_state s s refl refl refl v.allocator v)
          | inl free ↦
              rw (there, free, retry)
                (same_state s _ refl refl refl
                  (retire (push c e a s.journal s.journal.head a.overlay_sent a.actions_sent).2) v)
        ]
      ]

  write_out-Grown :
      (s : Shard c L) (id : ℕ) (t : c.State) → IsSteady c s → Grown s (write_out c s id t)
  unfolding write_out
  write_out-Grown s id t v = elim (Option-cases (get s.connections id)) [
    | inl gone ↦ rw (gone, write_out) (same_state s s refl refl refl v.allocator v)
    | inr (a, there) ↦ rw (there, write_out) (same_state s _ refl refl refl v.allocator v)
  ]

  step-Grown :
      (e : Emitter M) (logic : Logic L) (s : Shard c L) (move : Step c)
      → IsFlavor logic
      → s.version < u64_max
      → IsSteady c s
      → Grown s (step c e logic s move)
  unfolding step
  step-Grown e logic s (attaches id queue held ready) flavor room v =
      attach-Grown s id queue held ready v
  step-Grown e logic s (detaches id reason handover) flavor room v =
      detach-Grown e s id reason handover v
  step-Grown e logic s (drained id) flavor room v = retry-Grown e s id v
  step-Grown e logic s (writes id t) flavor room v = write_out-Grown s id t v
  step-Grown e logic s turns flavor room v = reconcile-Grown e logic s flavor room v

  invariant_along :
      (e : Emitter M) (logic : Logic L) (s : Shard c L) (moves : List (Step c))
      → IsFlavor logic
      → s.version + length moves < u64_max
      → IsSteady c s
      → IsSteady c (steps c e logic s moves)
        × ((steps c e logic s moves).version ≤ s.version + length moves)
  unfolding steps
  invariant_along e logic s [] flavor room v = (v, omega arith)
  invariant_along e logic s (move ∷ moves) flavor room v =
      let g = step-Grown e logic s move flavor (omega (arith, room)) v in
      let (steady, version) =
        invariant_along e logic (step c e logic s move) moves flavor
          (omega (arith, room, g.version)) g.steady in
      (steady, omega (arith, version, g.version))

  new-IsSteady :
      (id : ℕ) (l : L) (ids : IdAllocator) → IsAllocator ids → IsSteady c (new c id l ids)
  new-IsSteady id l ids v = record {
    history = [];
    window = new-IsWindow;
    counted = refl;
    allocator = v;
    indexed = record {
      channels_keyed = tt;
      users_keyed = tt;
      channels_distinct = tt;
      users_distinct = tt;
    };
  }

  -- Whatever came before since the shard was new, in fewer steps than there are versions, the writers
  -- of the queues included: in a turn whose render is accepted, a connection in step with the shard is
  -- left as it was, and so are the view and the version; or nothing reaches its queue; or operations
  -- enter its queue whole that take a client that shows what the connection held to one that shows
  -- what it now holds, and it is in step with the new view. The client shows of every user all, and of
  -- every channel but the root all, except that a channel that it shows and is sent anew without links
  -- may show more of them. The flavor renders by calls of the builder in which shared channels and
  -- users are placed under shared channels.
  pub steps-IsTurned :
      (e : Emitter M) (logic : Logic L) (id : ℕ) (l : L) (ids : IdAllocator) (moves : List (Step c))
      (k : ℕ) (a : AttachedConnection c)
      → IsFlavor logic
      → IsAllocator ids
      → length moves < u64_max
      → let s = steps c e logic (new c id l ids) moves in
        IsCurrent c s k a
        → (reconcile c e logic s).1.refused ≡ none
        → IsTurned c e s (reconcile c e logic s).0 k a
  steps-IsTurned e logic id l ids moves k a flavor v room now accepted =
      let (steady, version) =
        invariant_along e logic (new c id l ids) moves flavor (omega (arith, room))
          (new-IsSteady id l ids v) in
      reconcile-IsTurned c e logic (steps c e logic (new c id l ids) moves) k a flavor steady
        (omega (arith, version, room)) now accepted
