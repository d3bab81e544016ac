-- ===== src/Shard/Plan/Overlay/Channels.antt =====
-- The operations that an overlay's transition has on one channel: they depend only on the channel's
-- entries in the two overlays.
use mumble_server_runtime.Base.{
  ℕ, ◌≤◌, ◌≡◌, refl, sym, subst, ap, ap₂, ◌∙◌, inl, inr, false, Option, none, some, List, [], ◌∷◌,
  ◌++◌, arith, length, filter, filter-append, filter_skip, filter_skip_if, filter_cons,
  filter_cons_if, map, nat_eq, ◌==◌, Bool-cases, append-nil,
}
use mumble_server_runtime.Base.Assoc.{Assoc, get, IsDistinct}
use mumble_server_runtime.Base.Order.{sort_by, sort_by-perm}
use mumble_server_runtime.Shard.View.{Channel, User, Overlay, empty}
use mumble_server_runtime.Shard.Plan.{
  PlanOp, create_channel, update_channel, move_user, update_user, remove_user, remove_channel,
  user_patch, user_is_noop, channel_patch, channel_is_noop,
}
use mumble_server_runtime.Shard.Plan.Ordering.{order_creations}
use mumble_server_runtime.Shard.Plan.Ordering.Permutes.{order_creations-perm, filter_single_perm}
use mumble_server_runtime.Shard.Plan.Channels.{
  about, IsKeyed, id_matches, id_differs, own_creates, about-patch,
}
use mumble_server_runtime.Shard.Plan.Overlay.{
  overlay_depth, ElementPhases, element_step, element_phases, withdrawn, trailing_step, trailing,
  deeper_first, plan_elements,
}
use mumble_server_runtime.Shard.Plan.Overlay.Users.{own_key, own_keys, withdrawn-own}

abbrev no_elements : ElementPhases
no_elements = record { creates = []; updates = [] }

-- The phases of the channel alone, from its entries in the two overlays.
abbrev pub own_elements : Option Channel → Option Channel → ElementPhases
own_elements before none = record { creates = []; updates = [] }
own_elements before (some new) = element_step new before (record { creates = []; updates = [] })

abbrev own : ℕ → List PlanOp → List PlanOp
own c = filter (about c)

record Restricted (c : ℕ) (p q : ElementPhases) : Type 0 where
  creates : own_creates c p.creates ≡ q.creates
  updates : own c p.updates ≡ q.updates

step_other :
    (c id : ℕ) (new : Channel) (before : Option Channel) (p q : ElementPhases)
    → new.id ≡ id
    → (id == c) ≡ false
    → Restricted c p q
    → Restricted c (element_step new before p) q
unfolding element_step
step_other c id new none p q k ne r = record {
  creates = filter_skip _ new p.creates (id_differs c id new k ne) r.creates;
  updates = r.updates;
}
step_other c id new (some old) p q k ne r = record {
  creates = r.creates;
  updates =
      filter_skip_if _ (channel_is_noop (channel_patch old new))
        (update_channel (channel_patch old new)) p.updates
        (about-patch c old new ∙ id_differs c id new k ne) r.updates;
}

step_own :
    (c : ℕ) (new : Channel) (before : Option Channel) (p : ElementPhases)
    → new.id ≡ c
    → Restricted c p no_elements
    → Restricted c (element_step new before p) (element_step new before no_elements)
unfolding element_step
step_own c new none p k r = record {
  creates = filter_cons _ new p.creates (id_matches c new k) r.creates;
  updates = r.updates;
}
step_own c new (some old) p k r = record {
  creates = r.creates;
  updates =
      filter_cons_if _ (channel_is_noop (channel_patch old new))
        (update_channel (channel_patch old new)) p.updates
        (about-patch c old new ∙ id_matches c new k) r.updates;
}

elements_absent :
    (c : ℕ) (before after : Assoc ℕ Channel)
    → IsKeyed after
    → get after c ≡ none
    → Restricted c (element_phases before after) no_elements
unfolding element_phases get
elements_absent c before [] k h = record { creates = refl; updates = refl }
elements_absent c before ((id, new) ∷ after) k h =
    step_other c id new (get before id) (element_phases before after) no_elements k.0 (ground arith)
      (elements_absent c before after k.1 (ground arith))

elements-own :
    (c : ℕ) (before after : Assoc ℕ Channel)
    → IsKeyed after
    → IsDistinct after
    → Restricted c (element_phases before after) (own_elements (get before c) (get after c))
unfolding element_phases get
elements-own c before [] k d = record { creates = refl; updates = refl }
elements-own c before ((id, new) ∷ after) k d = elim (Bool-cases (id == c)) [
  | inl mine ↦
      let e : id ≡ c = (nat_eq.beq_iff id c).0 mine in
      rw mine (
        subst
          (λ t.
            Restricted c (element_step new (get before t) (element_phases before after))
              (element_step new (get before c) no_elements))
          (sym e)
          (step_own c new (get before c) (element_phases before after) (k.0 ∙ e)
            (elements_absent c before after k.1 (subst (λ t. get after t ≡ none) e d.0))))
  | inr other ↦ rw other (
      step_other c id new (get before id) (element_phases before after) _ k.0 other
        (elements-own c before after k.1 d.1))
]

-- No operation on a user is on a channel.
users_none : (c : ℕ) (ss : List ℕ) → own c (map remove_user ss) ≡ []
users_none c [] = refl
users_none c (s ∷ ss) = users_none c ss

trailing_step_none :
    (c session : ℕ) (new : User) (o : Option User) (rest : List PlanOp)
    → own c rest ≡ []
    → own c (trailing_step new o session rest) ≡ []
unfolding trailing_step
trailing_step_none c session new none rest h = h
trailing_step_none c session new (some old) rest h =
    filter_skip_if (about c) (old.channel == new.channel) (move_user session new.channel) _ refl (
      filter_skip_if (about c) (user_is_noop (user_patch old new))
        (update_user (user_patch old new)) rest refl h)

trailing_none : (c : ℕ) (before after : Assoc ℕ User) → own c (trailing before after) ≡ []
unfolding trailing
trailing_none c before [] = refl
trailing_none c before ((session, new) ∷ after) =
    trailing_step_none c session new (get before session) (trailing before after)
      (trailing_none c before after)

own-creations :
    (c : ℕ) (cs : List Channel)
    → own c (map create_channel cs) ≡ map create_channel (own_creates c cs)
own-creations c [] = refl
own-creations c (x ∷ cs) = ground (arith, own-creations c cs)

abbrev at_depth : Assoc ℕ Channel → ℕ → ℕ × ℕ
at_depth channels id = (id, overlay_depth channels id)

own_ranked : ℕ → List (ℕ × ℕ) → List (ℕ × ℕ)
own_ranked c = filter (λ (r : ℕ × ℕ). r.0 == c)

own-removals :
    (c : ℕ) (rs : List (ℕ × ℕ))
    → own c (map (λ (r : ℕ × ℕ). remove_channel r.0) rs)
      ≡ map (λ (r : ℕ × ℕ). remove_channel r.0) (own_ranked c rs)
unfolding own_ranked
own-removals c [] = refl
own-removals c (r ∷ rs) = ground (arith, own-removals c rs)

ranked-own :
    (c : ℕ) (channels : Assoc ℕ Channel) (ids : List ℕ)
    → own_ranked c (map (at_depth channels) ids) ≡ map (at_depth channels) (own_keys c ids)
unfolding own_ranked
ranked-own c channels [] = refl
ranked-own c channels (x ∷ ids) = ground (arith, ranked-own c channels ids)

creates_single : (before after : Option Channel) → length (own_elements before after).creates ≤ 1
unfolding element_step
creates_single before none = omega arith
creates_single none (some new) = omega arith
creates_single (some old) (some new) = omega arith

removals_single :
    (c : ℕ) (channels : Assoc ℕ Channel) (before after : Option Channel)
    → length (map (at_depth channels) (own_key c before after)) ≤ 1
removals_single c channels none none = omega arith
removals_single c channels none (some new) = omega arith
removals_single c channels (some old) none = omega arith
removals_single c channels (some old) (some new) = omega arith

removal_ops :
    (c : ℕ) (channels : Assoc ℕ Channel) (before after : Option Channel)
    → map (λ (r : ℕ × ℕ). remove_channel r.0) (map (at_depth channels) (own_key c before after))
      ≡ map remove_channel (own_key c before after)
removal_ops c channels none none = refl
removal_ops c channels none (some new) = refl
removal_ops c channels (some old) none = refl
removal_ops c channels (some old) (some new) = refl

-- An overlay's own operations on a channel, among its additions and its removals.
pub plan_elements-own :
    (c : ℕ) (before after : Overlay)
    → IsKeyed after.channels
    → IsDistinct before.channels
    → IsDistinct after.channels
    → let ops = plan_elements before after in
      let old = get before.channels c in
      let new = get after.channels c in
      (own c ops.additions
        ≡ map create_channel (own_elements old new).creates ++ (own_elements old new).updates)
      × (own c ops.removals ≡ map remove_channel (own_key c old new))
unfolding plan_elements own_ranked
plan_elements-own c before after k d e =
    let old = get before.channels c in
    let new = get after.channels c in
    let channels = element_phases before.channels after.channels in
    let r = elements-own c before.channels after.channels k e in
    let cs = order_creations channels.creates empty in
    let rest = trailing before.users after.users in
    let left = withdrawn before.users after.users in
    let ids = withdrawn before.channels after.channels in
    let ranked = map (at_depth before.channels) ids in
    let gone = sort_by deeper_first ranked in
    let left_own =
      ranked-own c before.channels ids
      ∙ ap (map (at_depth before.channels)) (withdrawn-own c before.channels after.channels d) in
    let created =
      sym (
        filter_single_perm _ (order_creations-perm channels.creates empty)
          (omega (arith, ap length r.creates, creates_single old new)))
      ∙ r.creates in
    let ordered =
      sym (
        filter_single_perm _ (sort_by-perm deeper_first ranked)
          (omega (arith, ap length left_own, removals_single c before.channels old new)))
      ∙ left_own in
    (
      filter-append (about c) (map create_channel cs) (channels.updates ++ rest)
          ∙ ap₂ ◌++◌ (own-creations c cs ∙ ap (map create_channel) created) (
              filter-append (about c) channels.updates rest
              ∙ ap₂ ◌++◌ r.updates (trailing_none c before.users after.users)
              ∙ append-nil (own_elements old new).updates),
      filter-append (about c) (map remove_user left) (map (λ (r : ℕ × ℕ). remove_channel r.0) gone)
          ∙ ap₂ ◌++◌ (users_none c left) (
              own-removals c gone
              ∙ ap (map (λ (r : ℕ × ℕ). remove_channel r.0)) ordered
              ∙ removal_ops c before.channels old new),
    )
