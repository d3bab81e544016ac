-- ===== src/Shard/Build/Changes.antt =====
-- The calls that change what was rendered, and the private elements of one connection.

use mumble_server_runtime.Base.{
  ℕ, ◌≡◌, sym, ap, ◌∙◌, inl, inr, none, nat_eq, Bool-cases, Option-cases,
}
use mumble_server_runtime.Base.Assoc.{Assoc, get}
use mumble_server_runtime.Base.Btree.{update, update-IsOrdered}
use mumble_server_runtime.Base.Order.{nat_order}
use mumble_server_runtime.Shard.Scope.{comparable}
use mumble_server_runtime.Shard.View.{Channel}
use mumble_server_runtime.Shard.Build.{ChannelRef, ShardBuilder, link_across_scopes}
use mumble_server_runtime.Shard.Build.Builder.{with_channel, add_link, channel_link}
use mumble_server_runtime.Shard.Build.Tree.{IsPlaced, Kept}
use mumble_server_runtime.Shard.Build.Links.{
  update-Extends, update_back, update-IsTree, joined, joined-Extends, joined-IsTree, add_link-Kept,
}
use mumble_server_runtime.Shard.Build.Coherent.{IsCoherent, Coherent-channels, Known}
use mumble_server_runtime.Shard.Build.Steps.{IsStep, fail-IsStep}

module _ (f : Channel → Channel) (kept : (c : Channel) → Kept c (f c)) where
  update-Known :
      (b : ShardBuilder) (m : Assoc ℕ Channel) (k : ℕ)
      → Known b.ids b.shard b.keys_seen m
      → Known b.ids b.shard b.keys_seen (update m k f)
  update-Known b m k h id d g =
      let (c, there, from) = update_back f kept m k id d g in
      let key : c.key ≡ d.key = elim from [
        | inl (e, _) ↦ sym (ap (λ x. x.key) e ∙ (kept c).key)
        | inr e ↦ sym (ap (λ x. x.key) e)
      ] in
      rw (sym key) (h id c there)

  update-absent : (m : Assoc ℕ Channel) (k id : ℕ) → get m id ≡ none → get (update m k f) id ≡ none
  update-absent m k id h = elim (Option-cases (get (update m k f) id)) [
    | inl absent ↦ absent
    | inr (d, there) ↦ let (c, old, _) = update_back f kept m k id d there in cc
  ]

  pub with_channel-IsStep :
      (b : ShardBuilder) (id : ℕ)
      → ((c : Channel) → (f c).links ≡ c.links)
      → IsCoherent b
      → IsStep b (with_channel b id f)
  unfolding with_channel
  with_channel-IsStep b id same c =
      let m = b.view.channels in
      let x = update-Extends f kept m id in
      record {
        coherent =
            Coherent-channels b.ids b.shard b.keys_seen b.rooted b.view (update m id f) x
              (update-IsOrdered m id f c.closed.channels_ordered)
              (update-IsTree f kept m id same c.closed.tree) (update-Known b m id c.known)
              (λ r. update-absent m id 0 (c.unrooted r)) c;
        extends = x;
      }

-- Two channels are linked in both directions, or not at all.
pub channel_link-IsStep :
    (b : ShardBuilder) (one other : ChannelRef)
    → IsCoherent b
    → IsPlaced b.view.channels one
    → IsPlaced b.view.channels other
    → IsStep b (channel_link b one other)
unfolding channel_link with_channel
channel_link-IsStep b one other c p q = elim (Bool-cases (comparable one.scope other.scope)) [
  | inr apart ↦ rw (apart, channel_link) (fail-IsStep b (link_across_scopes one.id other.id) c)
  | inl h ↦
      let m = b.view.channels in
      let f = add_link other.id in
      let g = add_link one.id in
      let f_kept = add_link-Kept other.id in
      let g_kept = add_link-Kept one.id in
      let half = update m one.id f in
      let x = joined-Extends m one other p q h in
      rw (h, channel_link)
        (record {
          coherent =
              Coherent-channels b.ids b.shard b.keys_seen b.rooted b.view (joined m one.id other.id)
                x
                (update-IsOrdered half other.id g
                  (update-IsOrdered m one.id f c.closed.channels_ordered))
                (joined-IsTree m one other p q h c.closed.tree)
                (update-Known g g_kept b half other.id (update-Known f f_kept b m one.id c.known))
                (λ r.
                  update-absent g g_kept half other.id 0
                    (update-absent f f_kept m one.id 0 (c.unrooted r)))
                c;
          extends = x;
        })
]
