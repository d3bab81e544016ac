-- ===== src/Shard/Turn/Triplet.antt =====
-- A connection's cursor, observation, overlay and actions advance together, and only with the whole
-- transition in its queue.
use mumble_server_runtime.Base.{
  ℕ, ◌≡◌, refl, sym, ap, ◌∙◌, true, ◌⊎◌, inl, inr, none, List, [], ◌∷◌, ◌++◌, append-nil, Result,
  ok, err, Bool-cases,
}
use mumble_server_runtime.Shard.ScopeSet.{ScopeSet}
use mumble_server_runtime.Shard.View.{ShardView, Overlay, Actions}
use mumble_server_runtime.Shard.Plan.{PlanOp, PlannedOp}
use mumble_server_runtime.Shard.Journal.{Journal, replay}
use mumble_server_runtime.Shard.Queue as Queue
use mumble_server_runtime.Shard.Queue.{
  Mpsc, OutboundQueue, Refused, congested, too_large, writer_ended, try_send_all,
}
use mumble_server_runtime.Shard.Queue.Admission.{try_send_all_lem}
use mumble_server_runtime.Shard.Turn.{
  Emitter, Outcome, advanced, congested_queue, close, retired_channels, no_messages,
  AttachedConnection, commit, push_ops, replan_ops, settle, deliver_ops, push, replan,
}

module _ {M : Type 0} (c : Mpsc M) where
  -- All four advanced, with the messages at the end of the queue.
  pub record IsAdvanced (a : AttachedConnection c) (head : ℕ) (new_see : ScopeSet)
      (overlay : Overlay) (actions : Actions) (messages : List M) (b : AttachedConnection c)
      : Type 0 where
    pub cursor : b.cursor ≡ head
    pub shared_cursor : b.shared_cursor ≡ head
    pub see : b.see ≡ new_see
    pub overlay_sent : b.overlay_sent ≡ overlay
    pub actions_sent : b.actions_sent ≡ actions
    pub held : b.held ≡ none
    pub queued : c.queued b.queue.sender ≡ c.queued a.queue.sender ++ messages

  -- Nothing of the connection's state moved, and nothing entered its queue.
  pub record IsUnmoved (a b : AttachedConnection c) : Type 0 where
    pub cursor : b.cursor ≡ a.cursor
    pub shared_cursor : b.shared_cursor ≡ a.shared_cursor
    pub see : b.see ≡ a.see
    pub overlay_sent : b.overlay_sent ≡ a.overlay_sent
    pub actions_sent : b.actions_sent ≡ a.actions_sent
    pub held : b.held ≡ a.held
    pub queued : c.queued b.queue.sender ≡ c.queued a.queue.sender

  -- What a turn comes to for one connection, by its outcome.
  abbrev pub Settled :
      AttachedConnection c
      → ℕ
      → ScopeSet
      → Overlay
      → Actions
      → List M
      → List PlanOp
      → AttachedConnection c
      → Outcome
      → List ℕ
      → Type 0
  Settled a head see overlay actions messages ops b advanced retired =
      IsAdvanced a head see overlay actions messages b
      × ((retired ≡ retired_channels ops) ⊎ ((retired ≡ []) × (no_messages messages ≡ true)))
  Settled a head see overlay actions messages ops b congested_queue retired =
      IsUnmoved a b × (retired ≡ [])
  Settled a head see overlay actions messages ops b close retired = IsUnmoved a b × (retired ≡ [])

  pub Settled-advanced :
      (a : AttachedConnection c) (head : ℕ) (see : ScopeSet) (overlay : Overlay) (actions : Actions)
      (messages : List M) (ops : List PlanOp) (b : AttachedConnection c) (outcome : Outcome)
      (retired : List ℕ)
      → Settled a head see overlay actions messages ops b outcome retired
      → outcome ≡ advanced
      → IsAdvanced a head see overlay actions messages b
  Settled-advanced a head see overlay actions messages ops b advanced retired s h = s.0
  Settled-advanced a head see overlay actions messages ops b congested_queue retired s h = cc
  Settled-advanced a head see overlay actions messages ops b close retired s h = cc

  unmoved :
      (a : AttachedConnection c) (q : OutboundQueue c)
      → c.queued q.sender ≡ c.queued a.queue.sender
      → IsUnmoved a (record a { queue = q })
  unmoved a q h = record {
    cursor = refl;
    shared_cursor = refl;
    see = refl;
    overlay_sent = refl;
    actions_sent = refl;
    held = refl;
    queued = h;
  }

  no_messages-nil : (messages : List M) → no_messages messages ≡ true → messages ≡ []
  no_messages-nil [] h = refl
  no_messages-nil (m ∷ messages) h = cc

  settle-Settled :
      (a : AttachedConnection c) (head : ℕ) (see : ScopeSet) (overlay : Overlay) (actions : Actions)
      (messages : List M) (ops : List PlanOp) (q : OutboundQueue c) (r : Result Refused (Unit {0}))
      → Queue.Admission.Outcome c a.queue messages q r
      → let (b, outcome, retired) =
          settle c a (q, r) (λ b. commit c b head see overlay actions) ops in
        Settled a head see overlay actions messages ops b outcome retired
  unfolding settle commit
  settle-Settled a head see overlay actions messages ops q (ok done) h = (
    record {
      cursor = refl;
      shared_cursor = refl;
      see = refl;
      overlay_sent = refl;
      actions_sent = refl;
      held = refl;
      queued = h.0;
    },
    inl refl,
  )
  settle-Settled a head see overlay actions messages ops q (err (congested needed free)) h =
      (unmoved a q h.0.0, refl)
  settle-Settled a head see overlay actions messages ops q (err (too_large needed capacity)) h =
      (unmoved a q h.0.0, refl)
  settle-Settled a head see overlay actions messages ops q (err writer_ended) h =
      (unmoved a q h.0.0, refl)

  module _ (e : Emitter M) where
    abbrev pub messages_of : AttachedConnection c → List PlanOp → Actions → List M
    messages_of a ops actions = e.emit ops a.session ++ e.actions a.actions_sent actions

    deliver_ops-Settled :
        (a : AttachedConnection c) (head : ℕ) (see : ScopeSet) (overlay : Overlay)
        (actions : Actions) (ops : List PlanOp)
        → let (b, outcome, retired) = deliver_ops c e a head see overlay actions ops in
          Settled a head see overlay actions (messages_of a ops actions) ops b outcome retired
    unfolding deliver_ops commit
    deliver_ops-Settled a head see overlay actions ops =
        let messages = messages_of a ops actions in
        elim (Bool-cases (no_messages messages)) [
          | inl nothing ↦
              let none : messages ≡ [] = no_messages-nil messages nothing in
              rw (nothing, deliver_ops)
                (
                  record {
                    cursor = refl;
                    shared_cursor = refl;
                    see = refl;
                    overlay_sent = refl;
                    actions_sent = refl;
                    held = refl;
                    queued = sym (
                        ap (λ l. c.queued a.queue.sender ++ l) none
                        ∙ append-nil (c.queued a.queue.sender));
                  },
                  inr (refl, nothing),
                )
          | inr some_messages ↦
              let (q, r) = try_send_all c a.queue messages in
              rw (some_messages, deliver_ops)
                (settle-Settled a head see overlay actions messages ops q r
                  (try_send_all_lem c a.queue messages))
        ]

    -- The fast path of a connection that the journal still reaches: the cursor, the observation, the
    -- overlay and the actions advance together, with the messages whole at the end of the queue; or
    -- none of them moves, nothing enters the queue, and no channel is retired.
    pub push-Settled :
        (a : AttachedConnection c) (journal : Journal PlannedOp) (head : ℕ) (overlay : Overlay)
        (actions : Actions) (replayed : List PlannedOp)
        → replay journal a.cursor head ≡ ok replayed
        → let (b, outcome, retired) = push c e a journal head overlay actions in
          let ops = push_ops c a replayed overlay in
          Settled a head a.see overlay actions (messages_of a ops actions) ops b outcome retired
    unfolding push
    push-Settled a journal head overlay actions replayed h =
        rw (h, push)
          (deliver_ops-Settled a head a.see overlay actions (push_ops c a replayed overlay))

    -- The slow path: the same, towards the new observation.
    pub replan-Settled :
        (a : AttachedConnection c) (before after : ShardView) (head : ℕ) (new_see : ScopeSet)
        (overlay : Overlay) (actions : Actions)
        → let (b, outcome, retired) = replan c e a before after head new_see overlay actions in
          let ops = replan_ops c a before after new_see overlay in
          Settled a head new_see overlay actions (messages_of a ops actions) ops b outcome retired
    unfolding replan
    replan-Settled a before after head new_see overlay actions =
        deliver_ops-Settled a head new_see overlay actions
          (replan_ops c a before after new_see overlay)
