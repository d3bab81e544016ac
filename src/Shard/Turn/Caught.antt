-- ===== src/Shard/Turn/Caught.antt =====
-- What a connection's client shows once it has applied a transition of the fast path, where the
-- connection was at the version before.
use mumble_server_runtime.Base.{
  ℕ, ◌+◌, ◌<◌, ◌≡◌, refl, ap, ◌∙◌, List, [], ◌∷◌, ◌++◌, none, arith, ok, append-nil, length, min,
  ltb, false, length-append, suc, ◌-◌, nat_eq,
}
use mumble_server_runtime.Base.Assoc.{IsDistinct}
use mumble_server_runtime.Shard.View.{ShardView, Overlay, Actions, restrict, compose}
use mumble_server_runtime.Shard.Plan.{PlannedOp, plan}
use mumble_server_runtime.Shard.Plan.Users.{IsKeyed}
use mumble_server_runtime.Shard.Plan.Channels as Channels
use mumble_server_runtime.Shard.Build.Overlays.{IsDisjoint}
use mumble_server_runtime.Shard.Client.{shown}
use mumble_server_runtime.Shard.Client.Links.{Shows}
use mumble_server_runtime.Shard.Client.Channels.{shown_by_replacing}
use mumble_server_runtime.Shard.Client.Users.Spliced.{users_spliced}
use mumble_server_runtime.Shard.Client.Channels.Spliced.{channels_spliced}
use mumble_server_runtime.Shard.Journal as Journal
use mumble_server_runtime.Shard.Journal.{Journal, u64_max, history_depth, replay}
use mumble_server_runtime.Shard.Journal.Window.{IsWindow, push-IsWindow}
use mumble_server_runtime.Shard.Journal.Replay.{slice, replay-IsWindow}
use mumble_server_runtime.Shard.Queue.{Mpsc}
use mumble_server_runtime.Shard.Turn.{
  Emitter, advanced, AttachedConnection, composed, push_ops, push,
}
use mumble_server_runtime.Shard.Turn.Triplet.{Settled-advanced, push-Settled, messages_of}
use mumble_server_runtime.Shard.Turn.Shown.{IsIndexed, composed-IsAdvanced}

pub slice_last :
    {A : Type 0} (xs : List A) (x : A) → slice (length xs) (length xs + 1) (xs ++ x ∷ []) ≡ x ∷ []
slice_last [] x = refl
slice_last (y ∷ xs) x =
    let e : suc (length xs) + 1 ≡ suc (length xs + 1) = omega arith in rw e (slice_last xs x)

-- Whoever is at the version before the last push gets the operations of that push.
pub replay_latest :
    {Op : Type 0} (history : List (List Op)) (j : Journal Op) (ops : List Op)
    → length history < u64_max
    → IsWindow history j
    → replay (Journal.push j ops) (length history) (length history + 1) ≡ ok ops
replay_latest history j ops room w =
    let grown : length (history ++ ops ∷ []) ≡ length history + 1 =
      length-append history (ops ∷ []) in
    let near : ltb (length history) (length (history ++ ops ∷ []) - history_depth) ≡ false =
      ground (arith, grown) in
    let top : min (length history + 1) (length (history ++ ops ∷ [])) ≡ length history + 1 =
      omega (arith, grown) in
    replay-IsWindow (history ++ ops ∷ []) (Journal.push j ops) (length history) (length history + 1)
      (push-IsWindow history j ops room w)
    ∙ rw (near, top, slice_last history ops) (ap ok (append-nil ops))

-- An overlay that holds each entry once under its own key, none of them in the view.
pub record IsLayered (view : ShardView) (overlay : Overlay) : Type 0 where
  pub channels_keyed : Channels.IsKeyed overlay.channels
  pub users_keyed : IsKeyed overlay.users
  pub channels_distinct : IsDistinct overlay.channels
  pub users_distinct : IsDistinct overlay.users
  pub disjoint : IsDisjoint view overlay

module _ {M : Type 0} (c : Mpsc M) where
  pub composed_free :
      (a : AttachedConnection c) (shared : ShardView)
      → a.held ≡ none
      → composed c a shared ≡ compose (restrict shared a.see) a.overlay_sent
  unfolding composed
  composed_free a shared free = rw (free, composed) refl

module _ {M : Type 0} (c : Mpsc M) (e : Emitter M) where
  -- A connection that is sent the operations of one delta and advances: a client that showed what the
  -- connection held of the view before shows what it holds of the view after, once it has applied the
  -- operations: of every user all, and of every channel but the root all, except that a channel that
  -- it shows and is sent anew without links may show more of them.
  pub push-shown :
      (a : AttachedConnection c) (before after : ShardView) (journal : Journal PlannedOp) (head : ℕ)
      (overlay : Overlay) (actions : Actions) (k : ℕ)
      → a.held ≡ none
      → replay journal a.cursor head ≡ ok (plan before after)
      → IsIndexed before
      → IsIndexed after
      → IsLayered before a.overlay_sent
      → IsLayered after overlay
      → (push c e a journal head overlay actions).1 ≡ advanced
      → let b = (push c e a journal head overlay actions).0 in
        Shows
          (shown (composed c a before))
          (push_ops c a (plan before after) overlay)
          (shown (composed c b after))
          k
  unfolding push_ops
  push-shown a before after journal head overlay actions k free found v w l m h =
      let done = push-Settled c e a journal head overlay actions (plan before after) found in
      let (b, outcome, retired) = push c e a journal head overlay actions in
      let ops = push_ops c a (plan before after) overlay in
      let messages = messages_of c e a ops actions in
      let there =
        composed-IsAdvanced c e a b head a.see overlay actions messages after
          (Settled-advanced c a head a.see overlay actions messages ops b outcome retired done h) in
      rw (there, composed_free c a before free)
        (
          shown_by_replacing k (shown (compose (restrict before a.see) a.overlay_sent)) ops _ (
              channels_spliced before after a.see a.overlay_sent overlay (suc k) w.channels_keyed
                v.channels_distinct w.channels_distinct m.channels_keyed
                (l.channels_distinct, l.users_distinct) (m.channels_distinct, m.users_distinct)
                (l.disjoint.channels (suc k)) (m.disjoint.channels (suc k))),
          users_spliced before after a.see a.overlay_sent overlay k w.users_keyed v.users_distinct
              w.users_distinct m.users_keyed (l.channels_distinct, l.users_distinct)
              (m.channels_distinct, m.users_distinct) (l.disjoint.users k) (m.disjoint.users k),
        )
