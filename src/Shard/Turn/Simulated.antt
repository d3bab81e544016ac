-- ===== src/Shard/Turn/Simulated.antt =====
-- A turn of a steady shard.

use mumble_server_runtime.Base.{ℕ, ◌<◌, ◌≡◌, refl, sym, subst, none, List, Result, ok, err, nat_eq}
use mumble_server_runtime.Base.Assoc.{get, keys}
use mumble_server_runtime.Base.Order.{nat_order}
use mumble_server_runtime.Shard.Ids.{IdAllocator}
use mumble_server_runtime.Shard.Ids.Operations.{IsAllocator}
use mumble_server_runtime.Shard.Journal.{u64_max}
use mumble_server_runtime.Shard.Queue.{Mpsc}
use mumble_server_runtime.Shard.Build.{BuildError, Rendered, ShardBuilder}
use mumble_server_runtime.Shard.Build.Builder.{new as new_builder}
use mumble_server_runtime.Shard.Build.Coherent.{IsClosed}
use mumble_server_runtime.Shard.Build.Layers.{AllLayers, calls-AllLayers}
use mumble_server_runtime.Shard.Build.Render.{opened, opened-IsRendering, calls-IsRendering}
use mumble_server_runtime.Shard.Turn.{Emitter, AttachedConnection}
use mumble_server_runtime.Shard.Turn.Layered.{finished-IsIndexed, finished-IsLayered}
use mumble_server_runtime.Shard.Turn.Reconcile.{Logic, Shard, conclude, prepare, reconcile}
use mumble_server_runtime.Shard.Turn.Steady.{
  IsFlavor, IsSteady, IsCurrent, IsTurned, conclude-IsTurned,
}

-- What a flavor leaves in the builder.
pub record IsRendered (b : ShardBuilder) : Type 0 where
  pub allocator : IsAllocator b.ids
  pub closed : IsClosed b.view
  pub layers : AllLayers b.overlays

pub flavor-IsRendered :
    {L : Type 0} (logic : Logic L) (l : L) (ids : IdAllocator) (shard : ℕ) (attached : List ℕ)
    → IsFlavor logic
    → IsAllocator ids
    → IsRendered (logic.render l (new_builder ids shard attached)).1
unfolding get
flavor-IsRendered logic l ids shard attached flavor v =
    let (cs, called) = flavor l (new_builder ids shard attached) in
    let start = opened ids shard attached in
    let coherent =
      (calls-IsRendering start cs (opened-IsRendering ids shard attached v)).coherent in
    subst IsRendered (sym called) (record {
      allocator = coherent.allocator;
      closed = coherent.closed;
      layers = calls-AllLayers start cs (λ connection overlay h. cc);
    })

module _ {M L : Type 0} (c : Mpsc M) where
  -- The shard once the flavor has rendered.
  pub prepared-IsSteady :
      (logic : Logic L) (s : Shard c L)
      → IsFlavor logic
      → IsSteady c s
      → IsSteady c (prepare c logic s).0
  prepared-IsSteady logic s flavor v = record {
    history = v.history;
    window = v.window;
    counted = v.counted;
    allocator =
        (flavor-IsRendered logic _ s.ids s.id (keys s.connections) flavor v.allocator).allocator;
    indexed = v.indexed;
  }

  concluded-IsTurned :
      (e : Emitter M) (logic : Logic L) (s : Shard c L) (id : ℕ) (a : AttachedConnection c)
      (result : Result BuildError Rendered)
      → IsFlavor logic
      → IsSteady c s
      → s.version < u64_max
      → IsCurrent c s id a
      → let (prepared, observations, finished) = prepare c logic s in
        (finished ≡ result)
        → (conclude c e prepared observations (keys s.connections) result).1.refused ≡ none
        → IsTurned c e s (conclude c e prepared observations (keys s.connections) result).0 id a
  unfolding conclude
  concluded-IsTurned e logic s id a (err why) flavor v room now found accepted = cc
  concluded-IsTurned e logic s id a (ok rendered) flavor v room now found accepted =
      let (prepared, observations, finished) = prepare c logic s in
      let r = flavor-IsRendered logic _ s.ids s.id (keys s.connections) flavor v.allocator in
      let t =
        conclude-IsTurned c e prepared observations rendered (prepared-IsSteady logic s flavor v)
          room (finished-IsIndexed _ observations rendered r.closed found)
          (λ id. finished-IsLayered _ observations rendered id r.layers found) id a
          (record { there = now.there; own = now.own; in_step = now.in_step }) in
      record { after = t.after; there = t.there; result = t.result }

  -- In a turn whose render is accepted, a connection in step with the shard is left as it was, and so
  -- are the view and the version; or nothing reaches its queue; or it is served: operations enter its
  -- queue whole that take a client that shows what the connection held to one that shows what it now
  -- holds, of every channel and every user, and it is in step with the new view. The flavor renders
  -- by the calls of the builder, and the version is below the largest.
  pub reconcile-IsTurned :
      (e : Emitter M) (logic : Logic L) (s : Shard c L) (id : ℕ) (a : AttachedConnection c)
      → IsFlavor logic
      → IsSteady c s
      → s.version < u64_max
      → IsCurrent c s id a
      → (reconcile c e logic s).1.refused ≡ none
      → IsTurned c e s (reconcile c e logic s).0 id a
  unfolding reconcile
  reconcile-IsTurned e logic s id a flavor v room now accepted =
      let (prepared, observations, finished) = prepare c logic s in
      concluded-IsTurned e logic s id a finished flavor v room now refl accepted
