-- ===== src/Shard/Turn/Served.antt =====
-- What a turn does for a connection that is in step with the shard.
use mumble_server_runtime.Base.{
  ℕ, ◌≡◌, refl, sym, subst, ap, ◌∙◌, false, ◌⊎◌, inl, inr, none, some, List, [], ◌∷◌, ◌++◌, ok,
  nat_eq, ◌==◌, Bool-cases,
}
use mumble_server_runtime.Base.Assoc.{Assoc, get}
use mumble_server_runtime.Base.Order.{nat_order, contains}
use mumble_server_runtime.Shard.ScopeSet.{ScopeSet}
use mumble_server_runtime.Shard.View.{ShardView, Overlay, Actions, empty_overlay}
use mumble_server_runtime.Shard.Plan.{PlanOp, PlannedOp, plan}
use mumble_server_runtime.Shard.Client.{shown}
use mumble_server_runtime.Shard.Client.Links.{Shows}
use mumble_server_runtime.Shard.Journal.{Journal, replay}
use mumble_server_runtime.Shard.Queue.{Mpsc, mark_fatal}
use mumble_server_runtime.Shard.Build.{Rendered}
use mumble_server_runtime.Shard.Build.Builder.{or_default}
use mumble_server_runtime.Shard.Build.Checks.{observed}
use mumble_server_runtime.Shard.Routing.{extend_set}
use mumble_server_runtime.Shard.Turn.{
  Emitter, Outcome, advanced, congested_queue, close, AttachedConnection, composed, push_ops,
  replan_ops, push, replan,
}
use mumble_server_runtime.Shard.Turn.Triplet.{
  IsUnmoved, Settled, messages_of, push-Settled, replan-Settled,
}
use mumble_server_runtime.Shard.Turn.Shown.{IsIndexed, replan-shown}
use mumble_server_runtime.Shard.Turn.Caught.{IsLayered, composed_free, push-shown}
use mumble_server_runtime.Shard.Turn.Layered.{compose-IsIndexed}
use mumble_server_runtime.Shard.Turn.Reconcile.{closing, serve, serve_all}

module _ {M : Type 0} (c : Mpsc M) where
  -- A connection in step with the view of a version: it stands at the version, with an overlay that
  -- fits the view; or it holds a view of another shard, and has not been served yet.
  abbrev pub InStep : ShardView → ℕ → AttachedConnection c → Type 0
  InStep view version a =
      ((a.held ≡ none) × (a.cursor ≡ version) × IsLayered view a.overlay_sent)
      ⊎ ((held : ShardView) × (a.held ≡ some held) × IsIndexed held)

  composed-IsIndexed :
      (a : AttachedConnection c) (view : ShardView) (version : ℕ)
      → IsIndexed view
      → InStep view version a
      → IsIndexed (composed c a view)
  unfolding composed
  composed-IsIndexed a view version v (inl (free, current, layered)) =
      subst IsIndexed (sym (composed_free c a view free))
        (compose-IsIndexed view a.see a.overlay_sent v layered)
  composed-IsIndexed a view version v (inr (held, holding, w)) = rw (holding, composed) w

  -- The operations take a client that shows what the connection held to one that shows what it holds.
  pub record IsServed (before after : ShardView) (version : ℕ) (a b : AttachedConnection c)
      (ops : List PlanOp) : Type 0 where
    pub shows : (k : ℕ) → Shows (shown (composed c a before)) ops (shown (composed c b after)) k
    pub in_step : InStep after version b

  module _ (e : Emitter M) where
    -- Nothing reached the connection's queue, or operations that serve it, whole at the end.
    abbrev pub Reached : (before after : ShardView) → ℕ → (a b : AttachedConnection c) → Type 0
    Reached before after version a b =
        IsUnmoved c a b
        ⊎ ((ops : List PlanOp) × (buttons : List M) × (c.queued b.queue.sender
              ≡ c.queued a.queue.sender ++ (e.emit ops a.session ++ buttons))
            × IsServed before after version a b ops)

    settle-Reached :
        (before after : ShardView) (a : AttachedConnection c) (head : ℕ) (see : ScopeSet)
        (overlay : Overlay) (actions : Actions) (ops : List PlanOp) (b : AttachedConnection c)
        (outcome : Outcome) (retired : List ℕ)
        → Settled c a head see overlay actions (messages_of c e a ops actions) ops b outcome retired
        → IsLayered after overlay
        → (outcome ≡ advanced
            → (k : ℕ) → Shows (shown (composed c a before)) ops (shown (composed c b after)) k)
        → Reached before after head a (closing c b outcome).0
    unfolding closing mark_fatal
    settle-Reached before after a head see overlay actions ops b advanced retired s l h = inr (
      ops,
      e.actions a.actions_sent actions,
      s.0.queued,
      record {
        shows = λ k. h refl k;
        in_step =
            inl (s.0.held, s.0.cursor, subst (λ o. IsLayered after o) (sym s.0.overlay_sent) l);
      },
    )
    settle-Reached before after a head see overlay actions ops b congested_queue retired s l h =
        inl s.0
    settle-Reached before after a head see overlay actions ops b close retired s l h = inl (record {
      cursor = s.0.cursor;
      shared_cursor = s.0.shared_cursor;
      see = s.0.see;
      overlay_sent = s.0.overlay_sent;
      actions_sent = s.0.actions_sent;
      held = s.0.held;
      queued = s.0.queued;
    })

    pub serve-Reached :
        (previous view : ShardView) (journal : Journal PlannedOp) (version head : ℕ)
        (observations : Assoc ℕ ScopeSet) (rendered : Rendered) (moved : List ℕ)
        (a : AttachedConnection c)
        → IsIndexed previous
        → IsIndexed view
        → IsLayered view (or_default empty_overlay (get rendered.overlays a.id))
        → replay journal version head ≡ ok (plan previous view)
        → (contains moved a.id ≡ false → a.held ≡ none)
        → InStep previous version a
        → let (b, outcome, retired) =
            serve c e previous view journal head observations rendered moved a in
          Reached previous view head a (closing c b outcome).0
    unfolding serve
    serve-Reached previous view journal version head observations rendered moved a v w l found fast
          t =
        let see = observed observations a.id in
        let overlay = or_default empty_overlay (get rendered.overlays a.id) in
        let actions = or_default [] (get rendered.actions a.id) in
        elim (Bool-cases (contains moved a.id)) [
          | inl slow ↦
              let (b, outcome, retired) = replan c e a previous view head see overlay actions in
              rw (slow, serve)
                (settle-Reached previous view a head see overlay actions
                  (replan_ops c a previous view see overlay) b outcome retired
                  (replan-Settled c e a previous view head see overlay actions) l
                  (λ h k.
                    replan-shown c e a previous view head see overlay actions k
                      (composed-IsIndexed a previous version v t)
                      (compose-IsIndexed view see overlay w l) h))
          | inr still ↦
              let free = fast still in
              let (b, outcome, retired) = push c e a journal head overlay actions in
              let at_version = current a previous version free t in
              let found' : replay journal a.cursor head ≡ ok (plan previous view) =
                ap (λ from. replay journal from head) at_version.0 ∙ found in
              rw (still, serve)
                (settle-Reached previous view a head a.see overlay actions
                  (push_ops c a (plan previous view) overlay) b outcome retired
                  (push-Settled c e a journal head overlay actions (plan previous view) found') l
                  (λ h k.
                    push-shown c e a previous view journal head overlay actions k free found' v w
                      at_version.1 l h))
        ]
      where
        current :
            (a : AttachedConnection c) (previous : ShardView) (version : ℕ)
            → a.held ≡ none
            → InStep previous version a
            → (a.cursor ≡ version) × IsLayered previous a.overlay_sent
        current a previous version free (inl (_, at, layered)) = (at, layered)
        current a previous version free (inr (held, holding, w)) =
            let clash : none ≡ some held = sym free ∙ holding in cc

  -- The loop serves each connection on its own.
  pub get-serve_all :
      (f : AttachedConnection c → AttachedConnection c × Outcome × List ℕ)
      (m : Assoc ℕ (AttachedConnection c)) (retired : List ℕ) (id : ℕ) (a : AttachedConnection c)
      → get m id ≡ some a
      → get (serve_all c f m retired).0 id ≡ some (closing c (f a).0 (f a).1).0
  unfolding serve_all get
  get-serve_all f [] retired id a h = cc
  get-serve_all f ((j, b) ∷ m) retired id a h = elim (Bool-cases (j == id)) [
    | inl hit ↦
        let h' : some b ≡ some a = rw hit at h in
        let same : b ≡ a = cc in rw hit (ap (λ x. some (closing c (f x).0 (f x).1).0) same)
    | inr other ↦ rw other (get-serve_all f m (extend_set retired (f b).2) id a (rw other at h))
  ]
