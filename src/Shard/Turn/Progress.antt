-- ===== src/Shard/Turn/Progress.antt =====
-- A retry of a connection that fell behind, once the writer has made room.
use mumble_server_runtime.Base.{
  ℕ, ◌+◌, ◌-◌, ◌≡◌, refl, ap, ap₂, ◌∙◌, [], ◌∷◌, ◌++◌, append-nil, length-append, false, inl, inr,
  none, some, List, ok, ltb, length, min, arith, nat_eq, Bool-cases,
}
use mumble_server_runtime.Base.Assoc.{get}
use mumble_server_runtime.Base.Order.{nat_order}
use mumble_server_runtime.Base.Btree.{get-btree_insert}
use mumble_server_runtime.Shard.ScopeSet.{ScopeSet}
use mumble_server_runtime.Shard.View.{ShardView, Overlay, Actions}
use mumble_server_runtime.Shard.Plan.{PlanOp, PlannedOp, plan}
use mumble_server_runtime.Shard.Journal.{Journal, history_depth, replay}
use mumble_server_runtime.Shard.Journal.Window.{IsWindow}
use mumble_server_runtime.Shard.Journal.Replay.{replay-IsWindow}
use mumble_server_runtime.Shard.Client.{shown}
use mumble_server_runtime.Shard.Client.Links.{Shows}
use mumble_server_runtime.Shard.Turn.Shown.{IsIndexed}
use mumble_server_runtime.Shard.Turn.Caught.{IsLayered, slice_last, push-shown}
use mumble_server_runtime.Shard.Queue.{Mpsc}
use mumble_server_runtime.Shard.Queue.Progress.{HasRoom, try_send_all-HasRoom}
use mumble_server_runtime.Shard.Turn.{
  Emitter, advanced, no_messages, AttachedConnection, composed, push_ops, settle, deliver_ops, push,
}
use mumble_server_runtime.Shard.Turn.Triplet.{
  IsAdvanced, messages_of, Settled-advanced, push-Settled,
}
use mumble_server_runtime.Shard.Turn.Reconcile.{Shard}
use mumble_server_runtime.Shard.Turn.Attached.{retry}

module _ {M : Type 0} (c : Mpsc M) (e : Emitter M) where
  deliver_ops-HasRoom :
      (a : AttachedConnection c) (head : ℕ) (see : ScopeSet) (overlay : Overlay) (actions : Actions)
      (ops : List PlanOp)
      → HasRoom c a.queue (length (messages_of c e a ops actions))
      → (deliver_ops c e a head see overlay actions ops).1 ≡ advanced
  unfolding deliver_ops settle
  deliver_ops-HasRoom a head see overlay actions ops room =
      let messages = messages_of c e a ops actions in
      elim (Bool-cases (no_messages messages)) [
        | inl nothing ↦ rw (nothing, deliver_ops) refl
        | inr some_messages ↦
            rw (some_messages, try_send_all-HasRoom c a.queue messages room, deliver_ops, settle)
              refl
      ]

  push-HasRoom :
      (a : AttachedConnection c) (journal : Journal PlannedOp) (head : ℕ) (overlay : Overlay)
      (actions : Actions) (replayed : List PlannedOp)
      → replay journal a.cursor head ≡ ok replayed
      → HasRoom c a.queue (length (messages_of c e a (push_ops c a replayed overlay) actions))
      → (push c e a journal head overlay actions).1 ≡ advanced
  unfolding push
  push-HasRoom a journal head overlay actions replayed found room =
      rw (found, push)
        (deliver_ops-HasRoom a head a.see overlay actions (push_ops c a replayed overlay) room)

  module _ {L : Type 0} where
    retry-push :
        (s : Shard c L) (id : ℕ) (a : AttachedConnection c)
        → get s.connections id ≡ some a
        → a.held ≡ none
        → get (retry c e s id).connections id
          ≡ some (push c e a s.journal s.journal.head a.overlay_sent a.actions_sent).0
    unfolding retry
    retry-push s id a there free =
        let b = (push c e a s.journal s.journal.head a.overlay_sent a.actions_sent).0 in
        rw (there, free, retry) (get-btree_insert s.connections id id b ∙ ground arith)

    retry-advances :
        (s : Shard c L) (id : ℕ) (a : AttachedConnection c) (owed : List PlannedOp)
        → get s.connections id ≡ some a
        → a.held ≡ none
        → replay s.journal a.cursor s.journal.head ≡ ok owed
        → let messages = messages_of c e a (push_ops c a owed a.overlay_sent) a.actions_sent in
          let pushed = push c e a s.journal s.journal.head a.overlay_sent a.actions_sent in
          HasRoom c a.queue (length messages)
          → (get (retry c e s id).connections id ≡ some pushed.0)
            × (pushed.1 ≡ advanced)
            × IsAdvanced c a s.journal.head a.see a.overlay_sent a.actions_sent messages pushed.0
    retry-advances s id a owed there free found room =
        let ops = push_ops c a owed a.overlay_sent in
        let messages = messages_of c e a ops a.actions_sent in
        let (b, outcome, retired) =
          push c e a s.journal s.journal.head a.overlay_sent a.actions_sent in
        let done =
          push-Settled c e a s.journal s.journal.head a.overlay_sent a.actions_sent owed found in
        let went =
          push-HasRoom a s.journal s.journal.head a.overlay_sent a.actions_sent owed found room in
        (
          retry-push s id a there free,
          went,
          Settled-advanced c a s.journal.head a.see a.overlay_sent a.actions_sent messages ops b
              outcome retired done went,
        )

    -- A connection that missed the last transition, retried once its queue has room for the messages
    -- it is owed and its writer still listens: it stands at the newest version, and operations are in
    -- its queue, whole, that take a client that shows what it held of the view before to one that
    -- shows what it holds of the view after: of every user all, and of every channel but the root all,
    -- except that a channel that it shows and is sent anew without links may show more of them.
    -- Both views keep each entry once under its own key, and so does its overlay, none of it in either.
    pub retry-caught_up :
        (s : Shard c L) (id : ℕ) (a : AttachedConnection c) (earlier : List (List PlannedOp))
        (before after : ShardView)
        → get s.connections id ≡ some a
        → a.held ≡ none
        → IsWindow (earlier ++ plan before after ∷ []) s.journal
        → a.cursor ≡ length earlier
        → IsIndexed before
        → IsIndexed after
        → IsLayered before a.overlay_sent
        → IsLayered after a.overlay_sent
        → let ops = push_ops c a (plan before after) a.overlay_sent in
          let messages = messages_of c e a ops a.actions_sent in
          HasRoom c a.queue (length messages)
          → (b : AttachedConnection c) × (get (retry c e s id).connections id ≡ some b)
            × (b.cursor ≡ length earlier + 1)
            × (c.queued b.queue.sender ≡ c.queued a.queue.sender ++ messages)
            × ((k : ℕ) → Shows (shown (composed c a before)) ops (shown (composed c b after)) k)
    retry-caught_up s id a earlier before after there free w behind v v' l l' room =
        let history = earlier ++ plan before after ∷ [] in
        let grown : length history ≡ length earlier + 1 =
          length-append earlier (plan before after ∷ []) in
        let head : s.journal.head ≡ length earlier + 1 = w.head ∙ grown in
        let (near, top) = reaches (length earlier) (length history) grown in
        let found : replay s.journal a.cursor s.journal.head ≡ ok (plan before after) =
          ap₂ (λ from to. replay s.journal from to) behind head
          ∙ replay-IsWindow history s.journal (length earlier) (length earlier + 1) w
          ∙ rw (near, top, slice_last earlier (plan before after))
              (ap ok (append-nil (plan before after))) in
        let (present, went, moved) =
          retry-advances s id a (plan before after) there free found room in
        (
          _,
          present,
          moved.cursor ∙ head,
          moved.queued,
          λ k.
              push-shown c e a before after s.journal s.journal.head a.overlay_sent a.actions_sent k
                free found v v' l l' went,
        )
      where
        reaches :
            (m n : ℕ) → n ≡ m + 1 → (ltb m (n - history_depth) ≡ false) × (min (m + 1) n ≡ m + 1)
        reaches m n h = (ground (arith, h), omega (arith, h))
