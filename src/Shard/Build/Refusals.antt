-- ===== src/Shard/Build/Refusals.antt =====
-- The first refusal wins: once a call has recorded one, no later call changes it, and `finish`
-- returns it.
use Prim.Native.String.{String}
use mumble_server_runtime.Base.{
  ℕ, ◌≡◌, refl, inl, inr, some, List, [], ◌∷◌, arith, err, get_elem?, nat_eq, Option-cases,
}
use mumble_server_runtime.Base.Assoc.{Assoc, get}
use mumble_server_runtime.Base.Order.{nat_order}
use mumble_server_runtime.Shard.Ids.{Occupant, occupant_order}
use mumble_server_runtime.Shard.Scope.{Scope}
use mumble_server_runtime.Shard.ScopeSet.{ScopeSet}
use mumble_server_runtime.Shard.Build.{
  ChannelRef, ShardBuilder, PrivateBuilder, BuildError, Narrow, same, into, Context, channel_named,
  user_named,
}
use mumble_server_runtime.Shard.Build.Builder.{
  fail, narrowed, root, place_channel, channel_allocated, channel_keyed, channel, place_user,
  user_scoped, unwrap_or, user, with_channel, channel_position, channel_can_enter, channel_can_text,
  channel_link, user_flags, or_default, private, audio_domain, audio_listen, audio_edge,
}
use mumble_server_runtime.Shard.Build.Private.{
  user_in, private_channel, private_user_flags, action, overlay_user, overlay_channel,
}
use mumble_server_runtime.Shard.View.{empty_overlay}
use mumble_server_runtime.Shard.Build.Checks.{finish}
use mumble_server_runtime.Shard.Build.Calls as Calls
use mumble_server_runtime.Shard.Build.Calls.{
  PrivateCall, private_call, private_calls, Call, Rendering, with_handle, interrupted, call, calls,
}

module _ (e : BuildError) where
  narrowed-keeps :
      (b : ShardBuilder) (parent : Scope) (narrow : Narrow) (context : Context)
      → b.error ≡ some e
      → (narrowed b parent narrow context).0.error ≡ some e
  unfolding narrowed fail
  narrowed-keeps b parent same context h = h
  narrowed-keeps b parent (into segment) context h = ground arith

  root-keeps :
      (b : ShardBuilder) (name : String) → b.error ≡ some e → (root b name).0.error ≡ some e
  unfolding root fail place_channel
  root-keeps b name h = ground arith

  channel_keyed-keeps :
      (b : ShardBuilder) (parent : ChannelRef) (key : ℕ) (name : String) (scope : Scope)
      → b.error ≡ some e
      → (channel_keyed b parent key name scope).0.error ≡ some e
  unfolding channel_keyed channel_allocated fail place_channel
  channel_keyed-keeps b parent key name scope h = ground arith

  channel-keeps :
      (b : ShardBuilder) (parent : ChannelRef) (key : ℕ) (name : String) (narrow : Narrow)
      → b.error ≡ some e
      → (channel b parent key name narrow).0.error ≡ some e
  unfolding channel
  channel-keeps b parent key name narrow h =
      let kept = narrowed-keeps b parent.scope narrow (channel_named name) h in
      elim (Option-cases (narrowed b parent.scope narrow (channel_named name)).1) [
        | inl deep ↦ rw (deep, channel) kept
        | inr (scope, there) ↦
            rw (there, channel)
              (channel_keyed-keeps (narrowed b parent.scope narrow (channel_named name)).0 parent
                key name scope kept)
      ]

  user_scoped-keeps :
      (b : ShardBuilder) (place : ChannelRef) (who : Occupant) (name : String) (scope : Scope)
      → b.error ≡ some e
      → (user_scoped b place who name scope).0.error ≡ some e
  unfolding user_scoped place_user fail
  user_scoped-keeps b place who name scope h = ground arith

  user-keeps :
      (b : ShardBuilder) (place : ChannelRef) (who : Occupant) (name : String) (narrow : Narrow)
      → b.error ≡ some e
      → (user b place who name narrow).0.error ≡ some e
  unfolding user
  user-keeps b place who name narrow h =
      user_scoped-keeps (narrowed b place.scope narrow (user_named name)).0 place who name
        (unwrap_or (narrowed b place.scope narrow (user_named name)).1 place.scope)
        (narrowed-keeps b place.scope narrow (user_named name) h)

  channel_link-keeps :
      (b : ShardBuilder) (one other : ChannelRef)
      → b.error ≡ some e
      → (channel_link b one other).error ≡ some e
  unfolding channel_link with_channel fail
  channel_link-keeps b one other h = ground arith

  private_call-keeps :
      (p : PrivateBuilder) (c : PrivateCall) → p.error ≡ some e → (private_call p c).error ≡ some e
  unfolding private_call user_in private_channel private_user_flags action overlay_user
      overlay_channel
  private_call-keeps p (Calls.place_user place who name) h = ground arith
  private_call-keeps p (Calls.place_channel parent key name) h = ground arith
  private_call-keeps p (Calls.flag_user who flags) h = h
  private_call-keeps p (Calls.offer key text on) h = ground arith

  private_calls-keeps :
      (cs : List PrivateCall) (p : PrivateBuilder)
      → p.error ≡ some e
      → (private_calls cs p).error ≡ some e
  unfolding private_calls
  private_calls-keeps [] p h = h
  private_calls-keeps (c ∷ cs) p h =
      private_calls-keeps cs (private_call p c) (private_call-keeps p c h)

  private-keeps :
      (b : ShardBuilder) (connection : ℕ) (cs : List PrivateCall)
      → b.error ≡ some e
      → (private b connection (private_calls cs)).error ≡ some e
  unfolding private
  private-keeps b connection cs h =
      private_calls-keeps cs
        (record {
          ids = b.ids;
          shard = b.shard;
          connection = connection;
          overlay = or_default empty_overlay (get b.overlays connection);
          actions = or_default [] (get b.actions connection);
          error = b.error;
        })
        h

  at :
      (r : Rendering) (i : ℕ) (f : ChannelRef → Rendering)
      → r.builder.error ≡ some e
      → ((h : ChannelRef) → (f h).builder.error ≡ some e)
      → (with_handle r i f).builder.error ≡ some e
  at r i f h k = elim (Option-cases (get_elem? r.handles i)) [
    | inl out ↦ rw (out, with_handle) h
    | inr (handle, there) ↦ rw (there, with_handle) (k handle)
  ]

  call-keeps :
      (r : Rendering) (c : Call) → r.builder.error ≡ some e → (call r c).builder.error ≡ some e
  unfolding call with_channel channel_position channel_can_enter channel_can_text user_flags
      audio_domain audio_listen audio_edge
  call-keeps r (Calls.render_root name) h = root-keeps r.builder name h
  call-keeps r (Calls.render_channel parent key name narrow) h =
      at r parent _ h (λ k. channel-keeps r.builder k key name narrow h)
  call-keeps r (Calls.render_user place who name narrow) h =
      at r place _ h (λ k. user-keeps r.builder k who name narrow h)
  call-keeps r (Calls.set_position i position) h = at r i _ h (λ k. h)
  call-keeps r (Calls.set_can_enter i allowed) h = at r i _ h (λ k. h)
  call-keeps r (Calls.set_can_text i allowed) h = at r i _ h (λ k. h)
  call-keeps r (Calls.link one other) h =
      at r one _ h (λ k. at r other _ h (λ l. channel_link-keeps r.builder k l h))
  call-keeps r (Calls.set_flags who flags) h = h
  call-keeps r (Calls.privately connection cs) h = private-keeps r.builder connection cs h
  call-keeps r (Calls.join_domain domain members) h = h
  call-keeps r (Calls.listen_to listener domain) h = h
  call-keeps r (Calls.add_edge sender receiver) h = h
  call-keeps r (Calls.elsewhere c) h = ground arith

  calls-keeps :
      (r : Rendering) (cs : List Call)
      → r.builder.error ≡ some e
      → (calls r cs).builder.error ≡ some e
  unfolding calls
  calls-keeps r [] h = h
  calls-keeps r (c ∷ cs) h = calls-keeps (call r c) cs (call-keeps r c h)

-- Once a render has been refused, it is refused for that reason, whatever is called after: `finish`
-- returns the first refusal.
pub first_refusal :
    (r : Rendering) (later : List Call) (observations : Assoc ℕ ScopeSet) (e : BuildError)
    → r.builder.error ≡ some e
    → finish (calls r later).builder observations ≡ err e
unfolding finish
first_refusal r later observations e h =
    let kept = calls-keeps e r later h in rw (kept, finish) refl
