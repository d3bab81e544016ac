-- ===== src/Shard/Turn/Shown.antt =====
-- What a connection's client shows once it has applied a replanned transition.
use mumble_server_runtime.Base.{
  ℕ, ◌≡◌, refl, ap, ap₂, Bool, true, none, some, List, [], ◌∷◌, arith, nat_eq,
}
use mumble_server_runtime.Base.Assoc.{Assoc, retain, IsDistinct}
use mumble_server_runtime.Shard.Scope.{Scope, root, is_prefix_of, comparable}
use mumble_server_runtime.Shard.ScopeSet.{ScopeSet, sees}
use mumble_server_runtime.Shard.View.{ShardView, Overlay, Actions, Channel, User, restrict, compose}
use mumble_server_runtime.Shard.Plan.{PlannedOp, plan}
use mumble_server_runtime.Shard.Plan.Users.{IsKeyed}
use mumble_server_runtime.Shard.Plan.Channels as Channels
use mumble_server_runtime.Shard.Compose.{filter_ops, collapse}
use mumble_server_runtime.Shard.Client.{shown}
use mumble_server_runtime.Shard.Client.Links.{Shows}
use mumble_server_runtime.Shard.Client.Users.{users_refine}
use mumble_server_runtime.Shard.Client.Channels.{channels_refine}
use mumble_server_runtime.Shard.Queue.{Mpsc}
use mumble_server_runtime.Shard.Turn.{
  Emitter, advanced, AttachedConnection, composed, replan_ops, ops_of, replan,
}
use mumble_server_runtime.Shard.Turn.Triplet.{
  IsAdvanced, Settled-advanced, replan-Settled, messages_of,
}

-- An observation of the root sees everything.
abbrev everything : ScopeSet
everything = record { scopes = some root ∷ none ∷ none ∷ none ∷ [] }

sees-everything : (s : Scope) → sees everything s ≡ true
unfolding sees comparable is_prefix_of
sees-everything s = ground arith

filter_ops-everything : (ops : List PlannedOp) → filter_ops ops everything ≡ ops_of ops
unfolding filter_ops
filter_ops-everything [] = refl
filter_ops-everything (p ∷ ops) =
    rw (sees-everything p.scope) (ap (λ l. p.op ∷ l) (filter_ops-everything ops))

retain-all {ℓ} :
    {V : Type ℓ} (keep : ℕ → V → Bool) (m : Assoc ℕ V)
    → ((k : ℕ) (v : V) → keep k v ≡ true)
    → retain keep m ≡ m
unfolding retain
retain-all keep [] h = refl
retain-all keep ((k, v) ∷ m) h = rw (h k v) (ap (λ l. (k, v) ∷ l) (retain-all keep m h))

restrict-everything : (view : ShardView) → restrict view everything ≡ view
unfolding restrict
restrict-everything view =
    let channels =
      retain-all (λ _ (channel : Channel). sees everything channel.scope) view.channels
        (λ _ channel. sees-everything channel.scope) in
    let users =
      retain-all (λ _ (user : User). sees everything user.scope) view.users
        (λ _ user. sees-everything user.scope) in
    ap₂ (λ cs us. record { channels = cs; users = us }) channels users

-- A view whose maps hold each key once, and each entry under its own.
pub record IsIndexed (view : ShardView) : Type 0 where
  pub channels_keyed : Channels.IsKeyed view.channels
  pub users_keyed : IsKeyed view.users
  pub channels_distinct : IsDistinct view.channels
  pub users_distinct : IsDistinct view.users

-- Planning between two whole views, without a filter.
pub planned-shown :
    (before after : ShardView) (k : ℕ)
    → IsIndexed before
    → IsIndexed after
    → Shows (shown before) (collapse (ops_of (plan before after))) (shown after) k
planned-shown before after k v w =
    let users =
      users_refine before after everything k w.users_keyed v.users_distinct w.users_distinct in
    let channels =
      channels_refine before after everything k w.channels_keyed v.channels_distinct
        w.channels_distinct in
    let all = filter_ops-everything (plan before after) in
    (
      rw (restrict-everything before, restrict-everything after, all) at channels,
      rw (restrict-everything before, restrict-everything after, all) at users,
    )

module _ {M : Type 0} (c : Mpsc M) (e : Emitter M) where
  pub composed-IsAdvanced :
      (a b : AttachedConnection c) (head : ℕ) (new_see : ScopeSet) (overlay : Overlay)
      (actions : Actions) (messages : List M) (after : ShardView)
      → IsAdvanced c a head new_see overlay actions messages b
      → composed c b after ≡ compose (restrict after new_see) overlay
  unfolding composed
  composed-IsAdvanced a b head new_see overlay actions messages after v =
      rw (v.held, v.see, v.overlay_sent, composed) refl

  -- A replanned connection that advances: a client that showed what the connection held shows what it
  -- holds then of the new view, once it has applied the operations: of every user all, and of every
  -- channel but the root all, except that a channel that it shows and is sent anew without links may
  -- show more of them. Both the view that the connection held and the one it is to hold keep each entry
  -- once, under its own key.
  pub replan-shown :
      (a : AttachedConnection c) (before after : ShardView) (head : ℕ) (new_see : ScopeSet)
      (overlay : Overlay) (actions : Actions) (k : ℕ)
      → IsIndexed (composed c a before)
      → IsIndexed (compose (restrict after new_see) overlay)
      → (replan c e a before after head new_see overlay actions).1 ≡ advanced
      → let b = (replan c e a before after head new_see overlay actions).0 in
        Shows
          (shown (composed c a before))
          (replan_ops c a before after new_see overlay)
          (shown (composed c b after))
          k
  unfolding replan_ops
  replan-shown a before after head new_see overlay actions k v w h =
      let done = replan-Settled c e a before after head new_see overlay actions in
      let (b, outcome, retired) = replan c e a before after head new_see overlay actions in
      let ops = replan_ops c a before after new_see overlay in
      let messages = messages_of c e a ops actions in
      let there =
        composed-IsAdvanced a b head new_see overlay actions messages after (
          Settled-advanced c a head new_see overlay actions messages ops b outcome retired done
            h) in
      rw there
        (planned-shown (composed c a before) (compose (restrict after new_see) overlay) k v w)
