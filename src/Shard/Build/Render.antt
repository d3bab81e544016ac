-- ===== src/Shard/Build/Render.antt =====
-- A whole render: any calls, in any order.

use mumble_server_runtime.Base.{
  ℕ, zero, suc, ◌≡◌, refl, ap, ◌∙◌, subst, Bool, true, false, ◌⊎◌, inl, inr, some, List, [], ◌∷◌,
  ◌++◌, arith, get_elem?, nat_eq, pair_eq, Option-cases, if◌then◌else◌,
}
use mumble_server_runtime.Base.Assoc.{get}
use mumble_server_runtime.Base.Order.{nat_order, contains}
use mumble_server_runtime.Shard.Ids.{IdAllocator}
use mumble_server_runtime.Shard.Ids.Operations.{IsAllocator}
use mumble_server_runtime.Shard.Ids.History as Ids
use mumble_server_runtime.Shard.Ids.History.{run-IsAllocator, run}
use mumble_server_runtime.Shard.View.{Channel}
use mumble_server_runtime.Shard.Build.{ChannelRef, ShardBuilder}
use mumble_server_runtime.Shard.Build.Builder.{
  new, private, root, channel, user, user_flags, channel_link, with_channel, channel_position,
  channel_can_enter, channel_can_text, audio_domain, audio_listen, audio_edge,
}
use mumble_server_runtime.Shard.Build.Tree.{IsPlaced, Extends-refl, IsPlaced-Extends, Kept}
use mumble_server_runtime.Shard.Build.Coherent.{IsCoherent, Coherent-ids, IsClosed}
use mumble_server_runtime.Shard.Build.Steps.{IsStep, IsPlacing, channel-IsPlacing}
use mumble_server_runtime.Shard.Build.Seats.{root-IsPlacing, user-IsStep, user_flags-IsStep}
use mumble_server_runtime.Shard.Build.Changes.{with_channel-IsStep, channel_link-IsStep}
use mumble_server_runtime.Shard.Build.Calls as Calls
use mumble_server_runtime.Shard.Build.Calls.{
  PrivateCall, private_call, private_calls, Call, Rendering, returned, with_handle, is_foreign,
  interrupted, call, calls,
}
use mumble_server_runtime.Shard.Build.Requests.{private_calls-ids, foreign-IsKeeping}

private-IsStep :
    (b : ShardBuilder) (connection : ℕ) (cs : List PrivateCall)
    → IsCoherent b
    → IsStep b (private b connection (private_calls cs))
unfolding private
private-IsStep b connection cs c =
    let kept = private_calls-ids cs _ c.allocator in
    record {
      coherent =
          Coherent-ids b.ids _ b.shard b.keys_seen b.rooted b.view kept.allocator kept.keeps c;
      extends = Extends-refl b.view.channels;
    }

interrupted-IsStep : (b : ShardBuilder) (c : Ids.Call) → IsCoherent b → IsStep b (interrupted b c)
interrupted-IsStep b c v = by_cases (is_foreign b.shard c) refl
  where
    by_cases :
        (f : Bool)
        → is_foreign b.shard c ≡ f
        → IsStep b (if f then record b { ids = Ids.call b.ids c } else b)
    by_cases false e = record { coherent = v; extends = Extends-refl b.view.channels }
    by_cases true e =
        let kept = foreign-IsKeeping b.ids b.shard c e v.allocator in
        record {
          coherent =
              Coherent-ids b.ids (Ids.call b.ids c) b.shard b.keys_seen b.rooted b.view
                kept.allocator kept.keeps v;
          extends = Extends-refl b.view.channels;
        }

-- A render in progress: the builder is coherent, and every handle names a channel of the view.
pub record IsRendering (r : Rendering) : Type 0 where
  pub coherent : IsCoherent r.builder
  pub placed :
      (i : ℕ) (h : ChannelRef) → get_elem? r.handles i ≡ some h → IsPlaced r.builder.view.channels h

stepped :
    (r : Rendering) (b : ShardBuilder)
    → IsRendering r
    → IsStep r.builder b
    → IsRendering (record r { builder = b })
stepped r b v s = record {
  coherent = s.coherent;
  placed = λ i h g.
      IsPlaced-Extends r.builder.view.channels b.view.channels h s.extends (v.placed i h g);
}

get_last :
    (hs : List ChannelRef) (new : ChannelRef) (i : ℕ) (h : ChannelRef)
    → get_elem? (hs ++ new ∷ []) i ≡ some h
    → (get_elem? hs i ≡ some h) ⊎ (new ≡ h)
get_last [] new zero h g = inr (ground arith)
get_last [] new (suc i) h g = cc
get_last (k ∷ hs) new zero h g = inl g
get_last (k ∷ hs) new (suc i) h g = get_last hs new i h g

returned-IsRendering :
    (r : Rendering) (result : ShardBuilder × ChannelRef)
    → IsRendering r
    → IsPlacing r.builder result
    → IsRendering (returned r result)
returned-IsRendering r (b, new) v s = record {
  coherent = s.step.coherent;
  placed = λ i h g. elim (get_last r.handles new i h g) [
    | inl old ↦
        IsPlaced-Extends r.builder.view.channels b.view.channels h s.step.extends (v.placed i h old)
    | inr e ↦ subst (IsPlaced b.view.channels) e s.placed
  ];
}

with_handle-IsRendering :
    (r : Rendering) (i : ℕ) (f : ChannelRef → Rendering)
    → IsRendering r
    → ((h : ChannelRef) → IsPlaced r.builder.view.channels h → IsRendering (f h))
    → IsRendering (with_handle r i f)
with_handle-IsRendering r i f v k = elim (Option-cases (get_elem? r.handles i)) [
  | inl out ↦ rw (out, with_handle) v
  | inr (h, there) ↦ rw (there, with_handle) (k h (v.placed i h there))
]

module _ (r : Rendering) (v : IsRendering r) where
  stepped_at :
      (i : ℕ) (f : ShardBuilder → ChannelRef → ShardBuilder)
      → ((h : ChannelRef) → IsPlaced r.builder.view.channels h → IsStep r.builder (f r.builder h))
      → IsRendering (with_handle r i (λ h. record r { builder = f r.builder h }))
  stepped_at i f s =
      with_handle-IsRendering r i (λ h. record r { builder = f r.builder h }) v
        (λ h p. stepped r (f r.builder h) v (s h p))

  changed_at :
      (i : ℕ) (f : Channel → Channel)
      → ((c : Channel) → Kept c (f c))
      → ((c : Channel) → (f c).links ≡ c.links)
      → IsRendering (with_handle r i (λ h. record r { builder = with_channel r.builder h.id f }))
  changed_at i f kept same =
      stepped_at i (λ b h. with_channel b h.id f)
        (λ h p. with_channel-IsStep f kept r.builder h.id same v.coherent)

  unchanged : IsStep r.builder r.builder
  unchanged = record { coherent = v.coherent; extends = Extends-refl r.builder.view.channels }

plainly :
    (c d : Channel)
    → d.id ≡ c.id
    → d.key ≡ c.key
    → d.parent ≡ c.parent
    → d.scope ≡ c.scope
    → d.links ≡ c.links
    → Kept c d
plainly c d i k p s l = record {
  id = i;
  key = k;
  parent = p;
  scope = s;
  links = λ x h. ap (λ ls. contains ls x) l ∙ h;
}

-- A call keeps the render coherent, and the handles it can name.
call-IsRendering : (r : Rendering) (c : Call) → IsRendering r → IsRendering (call r c)
unfolding call channel_position channel_can_enter channel_can_text audio_domain audio_listen
    audio_edge
call-IsRendering r (Calls.render_root name) v =
    returned-IsRendering r (root r.builder name) v (root-IsPlacing r.builder name v.coherent)
call-IsRendering r (Calls.render_channel parent key name narrow) v =
    with_handle-IsRendering r parent (λ h. returned r (channel r.builder h key name narrow)) v
      (λ h p.
        returned-IsRendering r (channel r.builder h key name narrow) v
          (channel-IsPlacing r.builder h key name narrow v.coherent p))
call-IsRendering r (Calls.render_user place who name narrow) v =
    stepped_at r v place (λ b h. (user b h who name narrow).0)
      (λ h p. user-IsStep r.builder h who name narrow v.coherent p)
call-IsRendering r (Calls.set_position i position) v =
    changed_at r v i (λ e. record e { position = position })
      (λ c. plainly c _ refl refl refl refl refl) (λ c. refl)
call-IsRendering r (Calls.set_can_enter i allowed) v =
    changed_at r v i (λ e. record e { can_enter = allowed })
      (λ c. plainly c _ refl refl refl refl refl) (λ c. refl)
call-IsRendering r (Calls.set_can_text i allowed) v =
    changed_at r v i (λ e. record e { can_text = allowed })
      (λ c. plainly c _ refl refl refl refl refl) (λ c. refl)
call-IsRendering r (Calls.link one other) v =
    with_handle-IsRendering r one
      (λ h. with_handle r other (λ k. record r { builder = channel_link r.builder h k })) v
      (λ h p.
        with_handle-IsRendering r other (λ k. record r { builder = channel_link r.builder h k }) v
          (λ k q.
            stepped r (channel_link r.builder h k) v
              (channel_link-IsStep r.builder h k v.coherent p q)))
call-IsRendering r (Calls.set_flags who flags) v =
    stepped r (user_flags r.builder who flags) v (user_flags-IsStep r.builder who flags v.coherent)
call-IsRendering r (Calls.privately connection cs) v =
    stepped r (private r.builder connection (private_calls cs)) v
      (private-IsStep r.builder connection cs v.coherent)
call-IsRendering r (Calls.join_domain domain members) v =
    stepped r (audio_domain r.builder domain members) v
      (record { coherent = v.coherent; extends = Extends-refl r.builder.view.channels })
call-IsRendering r (Calls.listen_to listener domain) v =
    stepped r (audio_listen r.builder listener domain) v
      (record { coherent = v.coherent; extends = Extends-refl r.builder.view.channels })
call-IsRendering r (Calls.add_edge sender receiver) v =
    stepped r (audio_edge r.builder sender receiver) v
      (record { coherent = v.coherent; extends = Extends-refl r.builder.view.channels })
call-IsRendering r (Calls.elsewhere c) v =
    stepped r (interrupted r.builder c) v (interrupted-IsStep r.builder c v.coherent)

pub calls-IsRendering : (r : Rendering) (cs : List Call) → IsRendering r → IsRendering (calls r cs)
unfolding calls
calls-IsRendering r [] v = v
calls-IsRendering r (c ∷ cs) v = calls-IsRendering (call r c) cs (call-IsRendering r c v)

-- The builder before the first call.
abbrev pub opened : IdAllocator → ℕ → List ℕ → Rendering
opened ids shard connections = record { builder = new ids shard connections; handles = [] }

pub opened-IsRendering :
    (ids : IdAllocator) (shard : ℕ) (connections : List ℕ)
    → IsAllocator ids
    → IsRendering (opened ids shard connections)
unfolding get
opened-IsRendering ids shard connections v = record {
  coherent = record {
    allocator = v;
    known = λ id c h. cc;
    unrooted = λ r. refl;
    rooted_there = λ r. cc;
    closed = record {
      channels_ordered = tt;
      users_ordered = tt;
      tree = λ id c h. cc;
      seated = λ session u h. cc;
    };
  };
  placed = λ i h g. cc;
}

-- Whatever a flavor calls, in whatever order, naming in its shared calls the handles that shared calls
-- gave it and never the handle of a private channel, and whatever other shards ask of the shared ids
-- meanwhile: the view is closed. Its maps are in the order of
-- their keys, every entry stands under its own id, every channel's scope extends its parent's, every
-- user's extends its channel's, and links join comparable scopes in both directions.
pub render-IsClosed :
    (ids : IdAllocator) (shard : ℕ) (connections : List ℕ) (cs : List Call)
    → IsAllocator ids
    → IsClosed (calls (opened ids shard connections) cs).builder.view
render-IsClosed ids shard connections cs v =
    (calls-IsRendering (opened ids shard connections) cs
      (opened-IsRendering ids shard connections v)).coherent.closed
