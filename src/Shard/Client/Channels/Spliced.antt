-- ===== src/Shard/Client/Channels/Spliced.antt =====
-- A connection's transition on the fast path, its overlay's operations spliced in, gives every
-- channel the state that the connection is to show.
use mumble_server_runtime.Base.{
  ℕ, ◌≡◌, refl, sym, ap, ap₂, ◌∙◌, inl, inr, Bool, Option, none, some, List, ◌++◌, filter, map,
  nat_eq, Bool-cases,
}
use mumble_server_runtime.Base.Assoc.{get, IsDistinct}
use mumble_server_runtime.Shard.ScopeSet.{ScopeSet, sees}
use mumble_server_runtime.Shard.View.{Channel, ShardView, Overlay, restrict, compose}
use mumble_server_runtime.Shard.View.Composed.{or_from, compose_lem}
use mumble_server_runtime.Shard.Plan.{
  PlanOp, create_channel, remove_channel, channel_element, added, is_removal, channel_patch,
  channel_is_noop, channel_step, plan,
}
use mumble_server_runtime.Shard.Plan.Channels.{
  about, IsKeyed, id_matches, own_phases, own_gone, own_ops, plan-own,
}
use mumble_server_runtime.Shard.Plan.Overlay.{element_step, plan_elements}
use mumble_server_runtime.Shard.Plan.Overlay.Users.{own_key}
use mumble_server_runtime.Shard.Plan.Overlay.Channels.{own_elements, plan_elements-own}
use mumble_server_runtime.Shard.Compose.{filter_ops, splice, collapse}
use mumble_server_runtime.Shard.Compose.Order.{adds, filter-splice, own_rejoined}
use mumble_server_runtime.Shard.Client.Element.{
  run, kept_own, own_collapsed, all_kept, collapse_effect, about-filter_ops,
}
use mumble_server_runtime.Shard.Client.Links.{replace_channel}
use mumble_server_runtime.Shard.Client.Channels.{
  act_other, not_added, kept-about, visible, noop-shown, patched-shown, act_update, act_create,
  act_remove, own_result, get-keyed, channels-restrict,
}
use mumble_server_runtime.Shard.Client.{ShownChannel, shown_channel, shown, shown_option}

-- The overlay's own additions of the channel.
abbrev own_additions : Option Channel → Option Channel → List PlanOp
own_additions old new =
    map create_channel (own_elements old new).creates ++ (own_elements old new).updates

-- A channel that the overlay keeps gets its new state.
update_effect :
    (c : ℕ) (old new : Channel)
    → new.id ≡ c
    → run (replace_channel c) (some (shown_channel old)) (own_additions (some old) (some new))
      ≡ some (shown_channel new)
unfolding run element_step
update_effect c old new k = elim (Bool-cases (channel_is_noop (channel_patch old new))) [
  | inl same ↦ rw same (ap some (noop-shown old new same))
  | inr other ↦
      rw (other, act_update c old new (shown_channel old) k) (ap some (patched-shown old new))
]

-- It is neither created nor removed.
update_kept :
    (b : Bool) (old new : Channel)
    → filter (kept_own b) (own_additions (some old) (some new))
      ≡ own_additions (some old) (some new)
unfolding element_step
update_kept b old new = elim (Bool-cases (channel_is_noop (channel_patch old new))) [
  | inl same ↦ rw same
  | inr other ↦ rw other
]

-- What the connection sees of the plan's own operations on the channel.
abbrev own_shared : ℕ → ScopeSet → Option Channel → Option Channel → List PlanOp
own_shared c see before after =
    filter_ops (own_ops (own_phases c before after) (own_gone c before after)) see

-- Spliced with the overlay's own.
abbrev own_spliced : ℕ → ScopeSet → (before after old new : Option Channel) → List PlanOp
own_spliced c see before after old new =
    let own = own_shared c see before after in
    filter adds own
    ++ (map remove_channel (own_key c old new) ++ (own_additions old new ++ filter is_removal own))

-- Whatever the entries are, of which never two are there at once.
spliced_result :
    (c : ℕ) (see : ScopeSet) (old new before after : Option Channel)
    → ((x : Channel) → after ≡ some x → x.id ≡ c)
    → ((x : Channel) → new ≡ some x → x.id ≡ c)
    → ((x : Channel) → old ≡ some x → before ≡ none)
    → ((x : Channel) → new ≡ some x → after ≡ none)
    → let own = own_shared c see before after in
      filter adds own ++ filter is_removal own ≡ own
      → run
          (replace_channel c)
          (shown_option shown_channel (or_from old (visible see before)))
          (own_collapsed (channel_element c) (own_spliced c see before after old new))
        ≡ shown_option shown_channel (or_from new (visible see after))
unfolding run filter_ops added is_removal channel_step
spliced_result c see none none before after k l x y r = rw r (own_result c see before after k)
spliced_result c see none (some new) before (some after) k l x y r = let e = y new refl in cc
spliced_result c see none (some new) none none k l x y r =
    unfold element_step in act_create c new none (l new refl)
spliced_result c see none (some new) (some before) none k l x y r =
    unfold element_step in
    elim (Bool-cases (sees see before.scope)) [
      | inl v ↦
          rw (v, id_matches c new (l new refl))
            (act_create c new (some (shown_channel before)) (l new refl))
      | inr v ↦ rw v (act_create c new none (l new refl))
    ]
spliced_result c see (some old) new (some before) after k l x y r = let e = x old refl in cc
spliced_result c see (some old) none none none k l x y r = act_remove c (some (shown_channel old))
spliced_result c see (some old) none none (some after) k l x y r =
    elim (Bool-cases (sees see after.scope)) [
      | inl v ↦
          rw (v, id_matches c after (k after refl))
            (act_create c after (some (shown_channel old)) (k after refl))
      | inr v ↦ rw v (act_remove c (some (shown_channel old)))
    ]
spliced_result c see (some old) (some new) none (some after) k l x y r = let e = y new refl in cc
spliced_result c see (some old) (some new) none none k l x y r =
    all_kept (replace_channel c) (channel_element c) (some (shown_channel old))
      (own_additions (some old) (some new)) (λ b. update_kept b old new)
    ∙ update_effect c old new (l new refl)

-- On the fast path, a client that shows what the connection saw of the first view with its old
-- overlay on top comes to show, of every channel, what it sees of the second with the new overlay,
-- where an overlay has no channel of its view.
pub channels_spliced :
    (before after : ShardView) (see : ScopeSet) (old new : Overlay) (c : ℕ)
    → IsKeyed after.channels
    → IsDistinct before.channels
    → IsDistinct after.channels
    → IsKeyed new.channels
    → (IsDistinct old.channels × IsDistinct old.users)
    → (IsDistinct new.channels × IsDistinct new.users)
    → ((x : Channel) → get old.channels c ≡ some x → get before.channels c ≡ none)
    → ((x : Channel) → get new.channels c ≡ some x → get after.channels c ≡ none)
    → run
        (replace_channel c)
        ((shown (compose (restrict before see) old)).channels c)
        (collapse (splice (filter_ops (plan before after) see) (plan_elements old new)))
      ≡ (shown (compose (restrict after see) new)).channels c
unfolding shown
channels_spliced before after see old new c k d e l f g x y =
    let shared = filter_ops (plan before after) see in
    let spliced = splice shared (plan_elements old new) in
    let view = compose (restrict before see) old in
    let st = shown_option shown_channel (get view.channels c) in
    let own_shared_lem =
      about-filter_ops (about c) (replace_channel c) (channel_element c) (act_other c) (not_added c)
        (kept-about c) (plan before after) see
      ∙ ap (λ l. filter_ops l see) (plan-own c before after k d e) in
    let (additions, removals) = plan_elements-own c old new l f.0 g.0 in
    let joined = λ (own shared_own removed_own added_own : List PlanOp).
      filter adds shared_own ++ (removed_own ++ (added_own ++ filter is_removal shared_own)) in
    let own =
      filter-splice (about c) before after see (plan_elements old new)
      ∙ ap₂ (λ (own rest : List PlanOp). filter adds own ++ rest) own_shared_lem
          (ap₂ ◌++◌ removals (ap₂ ◌++◌ additions (ap (filter is_removal) own_shared_lem))) in
    let start =
      (compose_lem (restrict before see) old c f.0 f.1).0
      ∙ ap (or_from (get old.channels c)) (channels-restrict before see c d) in
    let finish =
      (compose_lem (restrict after see) new c g.0 g.1).0
      ∙ ap (or_from (get new.channels c)) (channels-restrict after see c e) in
    collapse_effect (about c) (replace_channel c) (channel_element c) (act_other c) (not_added c)
      (kept-about c) spliced st
    ∙ ap₂
        (λ (st : Option ShownChannel) (own : List PlanOp).
          run (replace_channel c) st (own_collapsed (channel_element c) own))
        (ap (shown_option shown_channel) start) own
    ∙ spliced_result c see (get old.channels c) (get new.channels c) (get before.channels c)
        (get after.channels c) (λ x. get-keyed after.channels c x k)
        (λ x. get-keyed new.channels c x l) x y
        (rw own_shared_lem at (own_rejoined (about c) before after see))
    ∙ sym (ap (shown_option shown_channel) finish)
