-- ===== src/Shard/Turn/Versions.antt =====
-- What a turn keeps of a shard: the journal is at the shard's version, and no connection is past it.
use mumble_server_runtime.Base.{
  ℕ, ◌≤◌, ◌≡◌, sym, ap, ◌∙◌, subst, inl, inr, List, [], ◌∷◌, arith, Result, ok, err, All, filter,
  nat_eq, Bool-cases,
}
use mumble_server_runtime.Base.Fallible.{Result-cases}
use mumble_server_runtime.Base.Assoc.{Assoc, get, keys, values}
use mumble_server_runtime.Base.Order.{nat_order, contains}
use mumble_server_runtime.Shard.ScopeSet.{ScopeSet}
use mumble_server_runtime.Shard.View.{ShardView, Overlay, Actions, empty_overlay}
use mumble_server_runtime.Shard.Journal.{Journal, saturating_suc, u64_max, replay}
use mumble_server_runtime.Shard.Journal.Window.{push-head}
use mumble_server_runtime.Shard.Plan.{PlanOp, PlannedOp, plan}
use mumble_server_runtime.Shard.Queue.{Mpsc}
use mumble_server_runtime.Shard.Build.{BuildError, Rendered}
use mumble_server_runtime.Shard.Build.Checks.{observed}
use mumble_server_runtime.Shard.Build.Builder.{or_default}
use mumble_server_runtime.Shard.Routing.{extend_set}
use mumble_server_runtime.Shard.Ids.{retain_channels}
use mumble_server_runtime.Shard.Turn.Presence.{retained_keys, retained_overlays}
use mumble_server_runtime.Shard.Turn.{
  Emitter, Outcome, advanced, congested_queue, close, AttachedConnection, push, push_ops, replan,
  replan_ops,
}
use mumble_server_runtime.Shard.Turn.Triplet.{Settled, messages_of, push-Settled, replan-Settled}
use mumble_server_runtime.Shard.Turn.Reconcile.{
  Logic, serve, closing, serve_all, Shard, publish, route, has_moved, is_quiet, conclude,
  apply_render, prepare, reconcile,
}

module _ {M : Type 0} (c : Mpsc M) where
  -- The cursor is not past the version, and the voice plane reads the same one.
  pub record IsSynced (version : ℕ) (a : AttachedConnection c) : Type 0 where
    pub behind : a.cursor ≤ version
    pub shared : a.shared_cursor ≡ a.cursor

  IsSynced-later : (v w : ℕ) (a : AttachedConnection c) → v ≤ w → IsSynced v a → IsSynced w a
  IsSynced-later v w a h s = record { behind = omega (arith, s.behind); shared = s.shared }

  Settled-IsSynced :
      (a : AttachedConnection c) (head : ℕ) (see : ScopeSet) (overlay : Overlay) (actions : Actions)
      (messages : List M) (ops : List PlanOp) (b : AttachedConnection c) (outcome : Outcome)
      (retired : List ℕ)
      → Settled c a head see overlay actions messages ops b outcome retired
      → IsSynced head a
      → IsSynced head b
  Settled-IsSynced a head see overlay actions messages ops b advanced retired s h = record {
    behind = omega (arith, s.0.cursor);
    shared = s.0.shared_cursor ∙ sym s.0.cursor;
  }
  Settled-IsSynced a head see overlay actions messages ops b congested_queue retired s h = record {
    behind = omega (arith, s.0.cursor, h.behind);
    shared = s.0.shared_cursor ∙ h.shared ∙ sym s.0.cursor;
  }
  Settled-IsSynced a head see overlay actions messages ops b close retired s h = record {
    behind = omega (arith, s.0.cursor, h.behind);
    shared = s.0.shared_cursor ∙ h.shared ∙ sym s.0.cursor;
  }

  module _ (e : Emitter M) where
    pub push-IsSynced :
        (a : AttachedConnection c) (journal : Journal PlannedOp) (head : ℕ) (overlay : Overlay)
        (actions : Actions)
        → IsSynced head a
        → IsSynced head (push c e a journal head overlay actions).0
    unfolding push
    push-IsSynced a journal head overlay actions h =
        elim (Result-cases (replay journal a.cursor head)) [
          | inl (replayed, found) ↦
              let (b, outcome, retired) = push c e a journal head overlay actions in
              let ops = push_ops c a replayed overlay in
              Settled-IsSynced a head a.see overlay actions (messages_of c e a ops actions) ops b
                outcome retired (push-Settled c e a journal head overlay actions replayed found) h
          | inr (behind, lost) ↦ rw (lost, push) h
        ]

    replan-IsSynced :
        (a : AttachedConnection c) (before after : ShardView) (head : ℕ) (new_see : ScopeSet)
        (overlay : Overlay) (actions : Actions)
        → IsSynced head a
        → IsSynced head (replan c e a before after head new_see overlay actions).0
    replan-IsSynced a before after head new_see overlay actions h =
        let (b, outcome, retired) = replan c e a before after head new_see overlay actions in
        let ops = replan_ops c a before after new_see overlay in
        Settled-IsSynced a head new_see overlay actions (messages_of c e a ops actions) ops b
          outcome retired (replan-Settled c e a before after head new_see overlay actions) h

    serve-IsSynced :
        (previous view : ShardView) (journal : Journal PlannedOp) (head : ℕ)
        (observations : Assoc ℕ ScopeSet) (rendered : Rendered) (moved : List ℕ)
        (a : AttachedConnection c)
        → IsSynced head a
        → IsSynced head (serve c e previous view journal head observations rendered moved a).0
    unfolding serve
    serve-IsSynced previous view journal head observations rendered moved a h =
        let see = observed observations a.id in
        let overlay = or_default empty_overlay (get rendered.overlays a.id) in
        let actions = or_default [] (get rendered.actions a.id) in
        elim (Bool-cases (contains moved a.id)) [
          | inl slow ↦ rw (slow, serve) (replan-IsSynced a previous view head see overlay actions h)
          | inr fast ↦ rw (fast, serve) (push-IsSynced a journal head overlay actions h)
        ]

  closing-IsSynced :
      (head : ℕ) (a : AttachedConnection c) (outcome : Outcome)
      → IsSynced head a
      → IsSynced head (closing c a outcome).0
  unfolding closing
  closing-IsSynced head a advanced h = h
  closing-IsSynced head a congested_queue h = h
  closing-IsSynced head a close h = record { behind = h.behind; shared = h.shared }

  abbrev pub AllSynced : ℕ → Assoc ℕ (AttachedConnection c) → Type 0
  AllSynced version m = All (λ (p : ℕ × AttachedConnection c). IsSynced version p.1) m

  AllSynced-later :
      (v w : ℕ) (m : Assoc ℕ (AttachedConnection c)) → v ≤ w → AllSynced v m → AllSynced w m
  AllSynced-later v w [] h s = tt
  AllSynced-later v w ((id, a) ∷ m) h s = (IsSynced-later v w a h s.0, AllSynced-later v w m h s.1)

  serve_all-AllSynced :
      (f : AttachedConnection c → AttachedConnection c × Outcome × List ℕ) (head : ℕ)
      (m : Assoc ℕ (AttachedConnection c)) (retired : List ℕ)
      → ((a : AttachedConnection c) → IsSynced head a → IsSynced head (f a).0)
      → AllSynced head m
      → AllSynced head (serve_all c f m retired).0
  unfolding serve_all
  serve_all-AllSynced f head [] retired k h = tt
  serve_all-AllSynced f head ((id, a) ∷ m) retired k h =
      let (b, outcome, removed) = f a in
      (
        closing-IsSynced head b outcome (k a h.0),
        serve_all-AllSynced f head m (extend_set retired removed) k h.1,
      )

-- The journal is at the shard's version, a `u64`, and no connection's cursor is past it.
pub record IsVersioned {M L : Type 0} (c : Mpsc M) (s : Shard c L) : Type 0 where
  pub head : s.journal.head ≡ s.version
  pub bounded : s.version ≤ u64_max
  pub synced : AllSynced c s.version s.connections

module _ {M L : Type 0} (c : Mpsc M) where
  publish-IsVersioned :
      (s : Shard c L) (ops : List PlannedOp) → IsVersioned c s → IsVersioned c (publish c s ops)
  unfolding publish
  publish-IsVersioned s [] v = v
  publish-IsVersioned s (op ∷ ops) v = record {
    head = push-head s.journal (op ∷ ops) ∙ ap saturating_suc v.head;
    bounded = omega arith;
    synced =
        AllSynced-later c s.version (saturating_suc s.version) s.connections
          (omega (arith, v.bounded)) v.synced;
  }

  pub route-keeps :
      (s : Shard c L) (rendered : Rendered)
      → ((route c s rendered).0.version ≡ s.version)
        × ((route c s rendered).0.journal ≡ s.journal)
        × ((route c s rendered).0.connections ≡ s.connections)
  unfolding route
  route-keeps s rendered = (ground arith, ground arith, ground arith)

  kept-IsVersioned :
      (s t : Shard c L)
      → t.version ≡ s.version
      → t.journal ≡ s.journal
      → t.connections ≡ s.connections
      → IsVersioned c s
      → IsVersioned c t
  kept-IsVersioned s t e f g v = record {
    head = ap (λ j. j.head) f ∙ v.head ∙ sym e;
    bounded = omega (arith, e, v.bounded);
    synced =
        subst (λ m. AllSynced c t.version m) (sym g)
          (subst (λ n. AllSynced c n s.connections) (sym e) v.synced);
  }

  apply_render-IsVersioned :
      (e : Emitter M) (s : Shard c L) (observations : Assoc ℕ ScopeSet) (rendered : Rendered)
      (ops : List PlannedOp) (moved : List ℕ)
      → IsVersioned c s
      → IsVersioned c (apply_render c e s observations rendered ops moved).0
  unfolding apply_render
  apply_render-IsVersioned e s observations rendered ops moved v =
      let published = publish c s ops in
      let retained =
        retained_overlays (retained_keys [] (values rendered.view.channels)) rendered.overlays in
      let viewed : Shard c L = record published {
        view = rendered.view;
        ids = retain_channels published.ids published.id retained;
      } in
      let w = publish-IsVersioned s ops v in
      let (version, journal, connections) = route-keeps viewed rendered in
      let routed = (route c viewed rendered).0 in
      let u = kept-IsVersioned published routed version journal connections w in
      record {
        head = u.head;
        bounded = u.bounded;
        synced =
            serve_all-AllSynced c
              (serve c e s.view routed.view routed.journal routed.version observations rendered
                moved)
              routed.version routed.connections []
              (serve-IsSynced c e s.view routed.view routed.journal routed.version observations
                rendered moved)
              u.synced;
      }

  conclude-IsVersioned :
      (e : Emitter M) (s : Shard c L) (observations : Assoc ℕ ScopeSet) (attached : List ℕ)
      (result : Result BuildError Rendered)
      → IsVersioned c s
      → IsVersioned c (conclude c e s observations attached result).0
  unfolding conclude
  conclude-IsVersioned e s observations attached (err refused) v = v
  conclude-IsVersioned e s observations attached (ok rendered) v =
      let ops = plan s.view rendered.view in
      let moved = filter (has_moved c s.connections observations) attached in
      elim (Bool-cases (is_quiet c s rendered attached moved ops)) [
        | inl quiet ↦ rw (quiet, conclude) v
        | inr busy ↦
            rw (busy, conclude) (apply_render-IsVersioned e s observations rendered ops moved v)
      ]

  -- A turn keeps the journal at the shard's version and every connection's cursor at or below it,
  -- where the voice plane reads it, whatever the flavor renders and observes.
  pub reconcile-IsVersioned :
      (e : Emitter M) (logic : Logic L) (s : Shard c L)
      → IsVersioned c s
      → IsVersioned c (reconcile c e logic s).0
  unfolding reconcile
  reconcile-IsVersioned e logic s v =
      let (prepared, observations, result) = prepare c logic s in
      conclude-IsVersioned e prepared observations (keys s.connections) result
        (record { head = v.head; bounded = v.bounded; synced = v.synced })
