-- ===== src/Shard/Turn/History.antt =====
-- Any sequence of attachments, departures, retries and turns of a shard.
use Prim.Native.Nat.{compare, Ordering}
use Prim.Native.Nat.Ordering.{lt, eq, gt}
use Prim.Native.String.{String}
use mumble_server_runtime.Base.{
  ℕ, ◌≡◌, refl, sym, subst, Bool, Option, some, List, [], ◌∷◌, arith, ◌==◌, nat_eq, Option-cases,
  inl, inr, Bool-cases,
}
use mumble_server_runtime.Base.Fallible.{Result-cases}
use mumble_server_runtime.Base.Assoc.{Assoc, get, remove}
use mumble_server_runtime.Base.Order.{nat_order}
use mumble_server_runtime.Base.Btree.{btree_insert}
use mumble_server_runtime.Shard.Ids.{IdAllocator, connection_of, session}
use mumble_server_runtime.Shard.View.{ShardView}
use mumble_server_runtime.Shard.Queue.{Mpsc, OutboundQueue}
use mumble_server_runtime.Shard.Turn.{Emitter, AttachedConnection, push}
use mumble_server_runtime.Shard.Turn.Reconcile.{Logic, Shard}
use mumble_server_runtime.Shard.Turn.Versions.{
  IsSynced, AllSynced, IsVersioned, push-IsSynced, reconcile-IsVersioned,
}
use mumble_server_runtime.Shard.Turn.Attached.{
  Step, attaches, detaches, drained, writes, turns, fresh, new, attach, detach, retry, write_out,
  step, steps,
}

module _ {M : Type 0} (c : Mpsc M) where
  get-AllSynced :
      (version : ℕ) (m : Assoc ℕ (AttachedConnection c)) (id : ℕ) (a : AttachedConnection c)
      → AllSynced c version m
      → get m id ≡ some a
      → IsSynced c version a
  unfolding get
  get-AllSynced version [] id a v h = cc
  get-AllSynced version ((j, b) ∷ m) id a v h = elim (Bool-cases (j == id)) [
    | inl found ↦
        let same : b ≡ a = (let h' = rw (found, get) at h in cc) in
        subst (λ x. IsSynced c version x) same v.0
    | inr other ↦ get-AllSynced version m id a v.1 (rw (other, get) at h)
  ]

  remove-AllSynced :
      (version : ℕ) (m : Assoc ℕ (AttachedConnection c)) (id : ℕ)
      → AllSynced c version m
      → AllSynced c version (remove m id)
  unfolding remove
  remove-AllSynced version [] id v = tt
  remove-AllSynced version ((j, b) ∷ m) id v =
      let rest = remove-AllSynced version m id v.1 in
      elim (Bool-cases (j == id)) [
        | inl found ↦ rw (found, remove) rest
        | inr other ↦ rw (other, remove) (v.0, rest)
      ]

  btree_insert-AllSynced :
      (version : ℕ) (m : Assoc ℕ (AttachedConnection c)) (id : ℕ) (a : AttachedConnection c)
      → AllSynced c version m
      → IsSynced c version a
      → AllSynced c version (btree_insert m id a)
  unfolding btree_insert
  btree_insert-AllSynced version [] id a v h = (h, tt)
  btree_insert-AllSynced version ((j, b) ∷ m) id a v h =
      placed (compare id j) refl (btree_insert-AllSynced version m id a v.1 h)
    where
      placed :
          (o : Ordering)
          → compare id j ≡ o
          → AllSynced c version (btree_insert m id a)
          → AllSynced c version (btree_insert ((j, b) ∷ m) id a)
      placed lt below rest = rw (below, btree_insert) (h, v)
      placed eq same rest = rw (same, btree_insert) (h, v.1)
      placed gt above rest = rw (above, btree_insert) (v.0, rest)

module _ {M L : Type 0} (c : Mpsc M) where
  attach-IsVersioned :
      (s : Shard c L) (id : ℕ) (queue : OutboundQueue c) (held : ShardView) (ready : Bool)
      → IsVersioned c s
      → IsVersioned c (attach c s id queue held ready).0
  unfolding attach
  attach-IsVersioned s id queue held ready v =
      elim (Result-cases (session s.ids (connection_of id)).1) [
        | inl (number, granted) ↦
            rw (granted, attach)
              (record {
                head = v.head;
                bounded = v.bounded;
                synced =
                    btree_insert-AllSynced c s.version s.connections id
                      (fresh c s.version id number queue held ready) v.synced
                      (record { behind = omega arith; shared = refl });
              })
        | inr (exhausted, refused) ↦
            rw (refused, attach) (record { head = v.head; bounded = v.bounded; synced = v.synced })
      ]

  detach-IsVersioned :
      (e : Emitter M) (s : Shard c L) (id : ℕ) (reason : String) (handover : Option ℕ)
      → IsVersioned c s
      → IsVersioned c (detach c e s id reason handover).0
  unfolding detach
  detach-IsVersioned e s id reason handover v =
      let left : IsVersioned c (record s { connections = remove s.connections id }) = record {
        head = v.head;
        bounded = v.bounded;
        synced = remove-AllSynced c s.version s.connections id v.synced;
      } in
      elim (Option-cases (get s.connections id)) [
        | inl gone ↦ rw (gone, detach) v
        | inr (a, there) ↦ elim (Option-cases handover) [
          | inl leaving ↦ rw (there, leaving, detach) left
          | inr (to, moving) ↦ rw (there, moving, detach) left
        ]
      ]

  retry-IsVersioned :
      (e : Emitter M) (s : Shard c L) (id : ℕ) → IsVersioned c s → IsVersioned c (retry c e s id)
  unfolding retry
  retry-IsVersioned e s id v = elim (Option-cases (get s.connections id)) [
    | inl gone ↦ rw (gone, retry) (record { head = v.head; bounded = v.bounded; synced = v.synced })
    | inr (a, there) ↦ elim (Option-cases a.held) [
      | inr (held, holding) ↦ rw (there, holding, retry) v
      | inl free ↦
          let synced = get-AllSynced c s.version s.connections id a v.synced there in
          let pushed =
            push-IsSynced c e a s.journal s.journal.head a.overlay_sent a.actions_sent
              (subst (λ n. IsSynced c n a) (sym v.head) synced) in
          rw (there, free, retry)
            (record {
              head = v.head;
              bounded = v.bounded;
              synced =
                  btree_insert-AllSynced c s.version s.connections id
                    (push c e a s.journal s.journal.head a.overlay_sent a.actions_sent).0 v.synced
                    (subst
                      (λ n.
                        IsSynced c n
                          (push c e a s.journal s.journal.head a.overlay_sent a.actions_sent).0)
                      v.head pushed);
            })
    ]
  ]

  write_out-IsVersioned :
      (s : Shard c L) (id : ℕ) (t : c.State) → IsVersioned c s → IsVersioned c (write_out c s id t)
  unfolding write_out
  write_out-IsVersioned s id t v = elim (Option-cases (get s.connections id)) [
    | inl gone ↦ rw (gone, write_out) v
    | inr (a, there) ↦
        let synced = get-AllSynced c s.version s.connections id a v.synced there in
        rw (there, write_out)
          (record {
            head = v.head;
            bounded = v.bounded;
            synced =
                btree_insert-AllSynced c s.version s.connections id _ v.synced
                  (record { behind = synced.behind; shared = synced.shared });
          })
  ]

  step-IsVersioned :
      (e : Emitter M) (logic : Logic L) (s : Shard c L) (move : Step c)
      → IsVersioned c s
      → IsVersioned c (step c e logic s move)
  unfolding step
  step-IsVersioned e logic s (attaches id queue held ready) v =
      attach-IsVersioned s id queue held ready v
  step-IsVersioned e logic s (detaches id reason handover) v =
      detach-IsVersioned e s id reason handover v
  step-IsVersioned e logic s (drained id) v = retry-IsVersioned e s id v
  step-IsVersioned e logic s (writes id t) v = write_out-IsVersioned s id t v
  step-IsVersioned e logic s turns v = reconcile-IsVersioned c e logic s v

  from-IsVersioned :
      (e : Emitter M) (logic : Logic L) (s : Shard c L) (moves : List (Step c))
      → IsVersioned c s
      → IsVersioned c (steps c e logic s moves)
  unfolding steps
  from-IsVersioned e logic s [] v = v
  from-IsVersioned e logic s (move ∷ moves) v =
      from-IsVersioned e logic (step c e logic s move) moves (step-IsVersioned e logic s move v)

  -- Whatever connections attach to a new shard, leave it or are retried, whatever the writers of their
  -- queues do, and whatever turns it takes, its journal is at its version, which is a `u64`, and no connection's cursor is past it.
  pub steps-IsVersioned :
      (e : Emitter M) (logic : Logic L) (id : ℕ) (l : L) (ids : IdAllocator) (moves : List (Step c))
      → IsVersioned c (steps c e logic (new c id l ids) moves)
  steps-IsVersioned e logic id l ids moves =
      from-IsVersioned e logic (new c id l ids) moves
        (record { head = refl; bounded = omega arith; synced = tt })
