-- ===== src/Shard/Build/Layers.antt =====
-- Whatever is called of the builder, the overlays are maps in the order of their keys, with every
-- entry under its own id.
use Prim.Native.String.{String}
use mumble_server_runtime.Base.{
  ℕ, ◌≡◌, refl, sym, subst, ap, ◌∙◌, inl, inr, Option, none, some, List, [], ◌∷◌, arith, get_elem?,
  nat_eq, ◌==◌, eq_self, ==ℕ_iff, Option-cases, Bool-cases, All,
}
use mumble_server_runtime.Base.Fallible.{Result-cases}
use mumble_server_runtime.Base.Assoc.{Assoc, get, IsDistinct}
use mumble_server_runtime.Base.Order.{nat_order}
use mumble_server_runtime.Base.Btree.{
  btree_insert, update, changed, get-btree_insert, get-update, IsOrdered, btree_insert-IsOrdered,
  update-IsOrdered,
}
use mumble_server_runtime.Shard.Ids.{Occupant, occupant_order, channel as allocate_channel, session}
use mumble_server_runtime.Shard.Scope.{Scope}
use mumble_server_runtime.Shard.View.{Channel, User, On, Overlay, empty_overlay}
use mumble_server_runtime.Shard.Build.{
  ChannelRef, ShardBuilder, PrivateBuilder, Narrow, same, into, Context, channel_named, user_named,
}
use mumble_server_runtime.Shard.Build.Builder.{
  fail, narrowed, root, place_channel, channel_allocated, channel_keyed, channel, place_user,
  user_scoped, unwrap_or, user, with_channel, channel_position, channel_can_enter, channel_can_text,
  channel_link, user_flags, or_default, private, audio_domain, audio_listen, audio_edge,
}
use mumble_server_runtime.Shard.Build.Private.{
  user_in, private_channel, private_user_flags, action, overlay_user, overlay_channel,
}
use mumble_server_runtime.Shard.Build.Calls as Calls
use mumble_server_runtime.Shard.Build.Calls.{
  PrivateCall, private_call, private_calls, Call, Rendering, with_handle, interrupted, call, calls,
}

-- Every entry stands under its own key.
abbrev pub Keyed : {V : Type 0} → (V → ℕ) → Assoc ℕ V → Type 0
Keyed {V = V} own m = (k : ℕ) (v : V) → get m k ≡ some v → own v ≡ k

pub Keyed-All :
    {V : Type 0} (own : V → ℕ) (m : Assoc ℕ V)
    → IsDistinct m
    → Keyed own m
    → All (λ (e : ℕ × V). own e.1 ≡ e.0) m
unfolding get
Keyed-All own [] d h = tt
Keyed-All own ((k, v) ∷ m) d h = (
  h k v (rw (eq_self k) refl),
  Keyed-All own m d.1 (λ j w there. elim (Bool-cases (k == j)) [
    | inl hit ↦ let e = (==ℕ_iff k j).0 hit in let g = d.0 in cc
    | inr other ↦ h j w (rw other there)
  ]),
)

btree_insert-Keyed :
    {V : Type 0} (own : V → ℕ) (m : Assoc ℕ V) (k : ℕ) (v : V)
    → own v ≡ k
    → Keyed own m
    → Keyed own (btree_insert m k v)
btree_insert-Keyed own m k v e h j w there =
    let found = sym (get-btree_insert m k j v) ∙ there in
    elim (Bool-cases (k == j)) [
      | inl hit ↦
          let found' = rw hit at found in
          let f = (==ℕ_iff k j).0 hit in let g : v ≡ w = cc in sym (ap own g) ∙ e ∙ f
      | inr other ↦ h j w (rw other at found)
    ]

changed-own :
    {V : Type 0} (own : V → ℕ) (f : V → V) (o : Option V) (j : ℕ) (w : V)
    → ((v : V) → own (f v) ≡ own v)
    → ((v : V) → o ≡ some v → own v ≡ j)
    → changed f o ≡ some w
    → own w ≡ j
changed-own own f none j w e h there = cc
changed-own own f (some v) j w e h there = let g : f v ≡ w = cc in sym (ap own g) ∙ e v ∙ h v refl

update-Keyed :
    {V : Type 0} (own : V → ℕ) (m : Assoc ℕ V) (k : ℕ) (f : V → V)
    → ((v : V) → own (f v) ≡ own v)
    → Keyed own m
    → Keyed own (update m k f)
update-Keyed own m k f e h j w there =
    let found = sym (get-update m k j f) ∙ there in
    elim (Bool-cases (k == j)) [
      | inl hit ↦ changed-own own f (get m j) j w e (h j) (rw hit at found)
      | inr other ↦ h j w (rw other at found)
    ]

pub record IsLayer (overlay : Overlay) : Type 0 where
  pub channels_ordered : IsOrdered overlay.channels
  pub users_ordered : IsOrdered overlay.users
  pub channels_keyed : Keyed (λ (ch : Channel). ch.id) overlay.channels
  pub users_keyed : Keyed (λ (u : User). u.session) overlay.users

pub empty_overlay-IsLayer : IsLayer empty_overlay
unfolding get
empty_overlay-IsLayer = record {
  channels_ordered = tt;
  users_ordered = tt;
  channels_keyed = λ k v h. cc;
  users_keyed = λ k v h. cc;
}

overlay_user-IsLayer :
    (p : PrivateBuilder) (place : ChannelRef) (who : Occupant) (name : String) (number : ℕ)
    → IsLayer p.overlay
    → IsLayer (overlay_user p place who name number).0.overlay
unfolding overlay_user
overlay_user-IsLayer p place who name number v = record {
  channels_ordered = v.channels_ordered;
  users_ordered = btree_insert-IsOrdered p.overlay.users number _ v.users_ordered;
  channels_keyed = v.channels_keyed;
  users_keyed = btree_insert-Keyed _ p.overlay.users number _ refl v.users_keyed;
}

overlay_channel-IsLayer :
    (p : PrivateBuilder) (parent : ChannelRef) (key : ℕ) (name : String) (id : ℕ)
    → IsLayer p.overlay
    → IsLayer (overlay_channel p parent key name id).0.overlay
unfolding overlay_channel
overlay_channel-IsLayer p parent key name id v = record {
  channels_ordered = btree_insert-IsOrdered p.overlay.channels id _ v.channels_ordered;
  users_ordered = v.users_ordered;
  channels_keyed = btree_insert-Keyed _ p.overlay.channels id _ refl v.channels_keyed;
  users_keyed = v.users_keyed;
}

action-overlay :
    (p : PrivateBuilder) (key : ℕ) (text : String) (on : On)
    → (action p key text on).overlay ≡ p.overlay
unfolding action
action-overlay p key text on = ground arith

private_call-IsLayer :
    (p : PrivateBuilder) (c : PrivateCall) → IsLayer p.overlay → IsLayer (private_call p c).overlay
unfolding private_call user_in private_channel private_user_flags action overlay_user
    overlay_channel
private_call-IsLayer p (Calls.place_user place who name) v =
    elim (Result-cases (session p.ids who).1) [
      | inl (number, granted) ↦
          rw (granted, private_call, user_in) (overlay_user-IsLayer p place who name number v)
      | inr (why, refused) ↦
          rw (refused, private_call, user_in) (overlay_user-IsLayer p place who name 0 v)
    ]
private_call-IsLayer p (Calls.place_channel parent key name) v =
    elim (Result-cases (allocate_channel p.ids p.shard key).1) [
      | inl (id, granted) ↦
          rw (granted, private_call, private_channel)
            (overlay_channel-IsLayer p parent key name id v)
      | inr (why, refused) ↦ rw (refused, private_call, private_channel) v
    ]
private_call-IsLayer p (Calls.flag_user who flags) v = record {
  channels_ordered = v.channels_ordered;
  users_ordered = update-IsOrdered p.overlay.users who.session _ v.users_ordered;
  channels_keyed = v.channels_keyed;
  users_keyed = update-Keyed _ p.overlay.users who.session _ (λ u. refl) v.users_keyed;
}
private_call-IsLayer p (Calls.offer key text on) v =
    subst IsLayer (sym (action-overlay p key text on)) v

private_calls-IsLayer :
    (cs : List PrivateCall) (p : PrivateBuilder)
    → IsLayer p.overlay
    → IsLayer (private_calls cs p).overlay
unfolding private_calls
private_calls-IsLayer [] p v = v
private_calls-IsLayer (c ∷ cs) p v =
    private_calls-IsLayer cs (private_call p c) (private_call-IsLayer p c v)

abbrev pub AllLayers : Assoc ℕ Overlay → Type 0
AllLayers m =
    (connection : ℕ) (overlay : Overlay) → get m connection ≡ some overlay → IsLayer overlay

starting-IsLayer :
    (o : Option Overlay)
    → ((overlay : Overlay) → o ≡ some overlay → IsLayer overlay)
    → IsLayer (or_default empty_overlay o)
starting-IsLayer none h = empty_overlay-IsLayer
starting-IsLayer (some overlay) h = h overlay refl

private-AllLayers :
    (b : ShardBuilder) (connection : ℕ) (cs : List PrivateCall)
    → AllLayers b.overlays
    → AllLayers (private b connection (private_calls cs)).overlays
unfolding private
private-AllLayers b connection cs v j overlay there =
    let p = private_calls cs (record {
      ids = b.ids;
      shard = b.shard;
      connection = connection;
      overlay = or_default empty_overlay (get b.overlays connection);
      actions = or_default [] (get b.actions connection);
      error = b.error;
    }) in
    let found = sym (get-btree_insert b.overlays connection j p.overlay) ∙ there in
    elim (Bool-cases (connection == j)) [
      | inl hit ↦
          let found' = rw hit at found in
          let e : p.overlay ≡ overlay = cc in
          subst IsLayer e (
            private_calls-IsLayer cs _
              (starting-IsLayer (get b.overlays connection) (v connection)))
      | inr other ↦ v j overlay (rw other at found)
    ]

-- The shared calls leave the overlays alone.
narrowed-overlays :
    (b : ShardBuilder) (parent : Scope) (narrow : Narrow) (context : Context)
    → (narrowed b parent narrow context).0.overlays ≡ b.overlays
unfolding narrowed fail
narrowed-overlays b parent same context = refl
narrowed-overlays b parent (into segment) context = ground arith

root-overlays : (b : ShardBuilder) (name : String) → (root b name).0.overlays ≡ b.overlays
unfolding root fail place_channel
root-overlays b name = ground arith

channel_keyed-overlays :
    (b : ShardBuilder) (parent : ChannelRef) (key : ℕ) (name : String) (scope : Scope)
    → (channel_keyed b parent key name scope).0.overlays ≡ b.overlays
unfolding channel_keyed channel_allocated fail place_channel
channel_keyed-overlays b parent key name scope = ground arith

channel-overlays :
    (b : ShardBuilder) (parent : ChannelRef) (key : ℕ) (name : String) (narrow : Narrow)
    → (channel b parent key name narrow).0.overlays ≡ b.overlays
unfolding channel
channel-overlays b parent key name narrow =
    let narrowed_builder = (narrowed b parent.scope narrow (channel_named name)).0 in
    let kept = narrowed-overlays b parent.scope narrow (channel_named name) in
    elim (Option-cases (narrowed b parent.scope narrow (channel_named name)).1) [
      | inl deep ↦ rw (deep, channel) kept
      | inr (scope, there) ↦
          rw (there, channel) (channel_keyed-overlays narrowed_builder parent key name scope ∙ kept)
    ]

user-overlays :
    (b : ShardBuilder) (place : ChannelRef) (who : Occupant) (name : String) (narrow : Narrow)
    → (user b place who name narrow).0.overlays ≡ b.overlays
unfolding user
user-overlays b place who name narrow =
    user_scoped-overlays (narrowed b place.scope narrow (user_named name)).0
      (unwrap_or (narrowed b place.scope narrow (user_named name)).1 place.scope)
    ∙ narrowed-overlays b place.scope narrow (user_named name)
  where
    user_scoped-overlays :
        (b : ShardBuilder) (scope : Scope)
        → (user_scoped b place who name scope).0.overlays ≡ b.overlays
    user_scoped-overlays b scope = unfold user_scoped place_user fail in ground arith

channel_link-overlays :
    (b : ShardBuilder) (one other : ChannelRef) → (channel_link b one other).overlays ≡ b.overlays
unfolding channel_link with_channel fail
channel_link-overlays b one other = ground arith

at :
    (r : Rendering) (i : ℕ) (f : ChannelRef → Rendering)
    → AllLayers r.builder.overlays
    → ((h : ChannelRef) → AllLayers (f h).builder.overlays)
    → AllLayers (with_handle r i f).builder.overlays
at r i f h k = elim (Option-cases (get_elem? r.handles i)) [
  | inl out ↦ rw (out, with_handle) h
  | inr (handle, there) ↦ rw (there, with_handle) (k handle)
]

left_alone : (m n : Assoc ℕ Overlay) → n ≡ m → AllLayers m → AllLayers n
left_alone m n e v = subst AllLayers (sym e) v

call-AllLayers :
    (r : Rendering) (c : Call)
    → AllLayers r.builder.overlays
    → AllLayers (call r c).builder.overlays
unfolding call with_channel channel_position channel_can_enter channel_can_text user_flags
    audio_domain audio_listen audio_edge
call-AllLayers r (Calls.render_root name) v =
    left_alone r.builder.overlays _ (root-overlays r.builder name) v
call-AllLayers r (Calls.render_channel parent key name narrow) v =
    at r parent _ v
      (λ k. left_alone r.builder.overlays _ (channel-overlays r.builder k key name narrow) v)
call-AllLayers r (Calls.render_user place who name narrow) v =
    at r place _ v
      (λ k. left_alone r.builder.overlays _ (user-overlays r.builder k who name narrow) v)
call-AllLayers r (Calls.set_position i position) v = at r i _ v (λ k. v)
call-AllLayers r (Calls.set_can_enter i allowed) v = at r i _ v (λ k. v)
call-AllLayers r (Calls.set_can_text i allowed) v = at r i _ v (λ k. v)
call-AllLayers r (Calls.link one other) v = at r one _ v (λ k.
    at r other _ v (λ l. left_alone r.builder.overlays _ (channel_link-overlays r.builder k l) v))
call-AllLayers r (Calls.set_flags who flags) v = v
call-AllLayers r (Calls.privately connection cs) v = private-AllLayers r.builder connection cs v
call-AllLayers r (Calls.join_domain domain members) v = v
call-AllLayers r (Calls.listen_to listener domain) v = v
call-AllLayers r (Calls.add_edge sender receiver) v = v
call-AllLayers r (Calls.elsewhere c) v =
    left_alone r.builder.overlays (interrupted r.builder c).overlays (ground arith) v

pub calls-AllLayers :
    (r : Rendering) (cs : List Call)
    → AllLayers r.builder.overlays
    → AllLayers (calls r cs).builder.overlays
unfolding calls
calls-AllLayers r [] v = v
calls-AllLayers r (c ∷ cs) v = calls-AllLayers (call r c) cs (call-AllLayers r c v)
