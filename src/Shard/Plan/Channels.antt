-- ===== src/Shard/Plan/Channels.antt =====
-- The operations that a plan has on one channel: they depend only on the channel's entries in the
-- two views.
use mumble_server_runtime.Base.{
  ℕ, ◌≤◌, ◌≡◌, refl, sym, subst, ap, ap₂, ◌∙◌, inl, inr, Bool, true, false, Option, none, some,
  List, [], ◌∷◌, ◌++◌, arith, length, filter, filter-append, filter_cons, filter_skip,
  filter_cons_if, filter_skip_if, map, nat_eq, eq_self, ◌==◌, Bool-cases, All,
}
use mumble_server_runtime.Base.Assoc.{Assoc, get, IsDistinct}
use mumble_server_runtime.Shard.Scope.{Scope, scope_eq}
use mumble_server_runtime.Shard.View.{Channel, User, ShardView}
use mumble_server_runtime.Shard.Plan.{
  PlanOp, PlannedOp, planned, create_channel, update_channel, move_user, update_user,
  remove_channel, channel_patch, channel_is_noop, plan, ChannelPhases, UserPhases, channel_step,
  channel_phases, gone_channels, user_patch, user_is_noop, user_step, user_phases, gone_users,
}
use mumble_server_runtime.Shard.Plan.Ordering.{order_creations, order_removals}
use mumble_server_runtime.Shard.Plan.Ordering.Permutes.{
  order_creations-perm, order_removals-perm, filter_single_perm,
}

-- The operations on channel `c`.
abbrev pub about : ℕ → PlanOp → Bool
about c (create_channel channel) = channel.id == c
about c (update_channel p) = p.id == c
about c (remove_channel id) = id == c
about c _ = false

-- Each channel stands under its id.
abbrev pub IsKeyed : Assoc ℕ Channel → Type 0
IsKeyed m = All (λ (e : ℕ × Channel). e.1.id ≡ e.0) m

abbrev pub no_phases : ChannelPhases
no_phases = record { creates = []; updates = []; removals = [] }

-- The phases of channel `c` alone, from its entries in the two views.
abbrev pub own_phases : ℕ → Option Channel → Option Channel → ChannelPhases
own_phases c before none = no_phases
own_phases c before (some new) = channel_step new before c no_phases

abbrev pub own_gone : ℕ → Option Channel → Option Channel → List (ℕ × Scope)
own_gone c (some old) none = (c, old.scope) ∷ []
own_gone c _ _ = []

abbrev own : ℕ → List PlannedOp → List PlannedOp
own c = filter (λ (p : PlannedOp). about c p.op)

abbrev pub own_creates : ℕ → List Channel → List Channel
own_creates c = filter (λ (channel : Channel). channel.id == c)

abbrev own_removals : ℕ → List (ℕ × Scope) → List (ℕ × Scope)
own_removals c = filter (λ (r : ℕ × Scope). r.0 == c)

record Restricted (c : ℕ) (p q : ChannelPhases) : Type 0 where
  creates : own_creates c p.creates ≡ q.creates
  updates : own c p.updates ≡ q.updates
  removals : own_removals c p.removals ≡ q.removals

-- The step of another channel, and of `c` itself.
pub id_differs :
    (c id : ℕ) (new : Channel) → new.id ≡ id → (id == c) ≡ false → (new.id == c) ≡ false
id_differs c id new k ne = ground arith

pub id_matches : (c : ℕ) (new : Channel) → new.id ≡ c → (new.id == c) ≡ true
id_matches c new k = ground arith

pub about-patch :
    (c : ℕ) (old new : Channel) → about c (update_channel (channel_patch old new)) ≡ (new.id == c)
unfolding channel_patch
about-patch c old new = refl

step_other :
    (c id : ℕ) (new : Channel) (before : Option Channel) (p q : ChannelPhases)
    → new.id ≡ id
    → (id == c) ≡ false
    → Restricted c p q
    → Restricted c (channel_step new before id p) q
unfolding channel_step
step_other c id new none p q k ne r = record {
  creates = filter_skip _ new p.creates (id_differs c id new k ne) r.creates;
  updates = r.updates;
  removals = r.removals;
}
step_other c id new (some old) p q k ne r = elim (Bool-cases (old.scope == new.scope)) [
  | inl same ↦
      rw (same, channel_step)
        (record {
          creates = r.creates;
          updates =
              filter_skip_if _ (channel_is_noop (channel_patch old new))
                (planned (update_channel (channel_patch old new)) new.scope) p.updates
                (about-patch c old new ∙ id_differs c id new k ne) r.updates;
          removals = r.removals;
        })
  | inr moved ↦
      rw (moved, channel_step)
        (record {
          creates = filter_skip _ new p.creates (id_differs c id new k ne) r.creates;
          updates = r.updates;
          removals = filter_skip _ (id, old.scope) p.removals ne r.removals;
        })
]

step_own :
    (c : ℕ) (new : Channel) (before : Option Channel) (p : ChannelPhases)
    → new.id ≡ c
    → Restricted c p no_phases
    → Restricted c (channel_step new before c p) (channel_step new before c no_phases)
unfolding channel_step
step_own c new none p k r = record {
  creates = filter_cons _ new p.creates (id_matches c new k) r.creates;
  updates = r.updates;
  removals = r.removals;
}
step_own c new (some old) p k r = elim (Bool-cases (old.scope == new.scope)) [
  | inl same ↦
      rw (same, channel_step)
        (record {
          creates = r.creates;
          updates =
              filter_cons_if _ (channel_is_noop (channel_patch old new))
                (planned (update_channel (channel_patch old new)) new.scope) p.updates
                (about-patch c old new ∙ id_matches c new k) r.updates;
          removals = r.removals;
        })
  | inr moved ↦
      rw (moved, channel_step)
        (record {
          creates = filter_cons _ new p.creates (id_matches c new k) r.creates;
          updates = r.updates;
          removals = filter_cons _ (c, old.scope) p.removals (eq_self c) r.removals;
        })
]

phases_absent :
    (c : ℕ) (before after : Assoc ℕ Channel)
    → IsKeyed after
    → get after c ≡ none
    → Restricted c (channel_phases before after) no_phases
unfolding channel_phases get
phases_absent c before [] k h = record { creates = refl; updates = refl; removals = refl }
phases_absent c before ((id, new) ∷ after) k h =
    step_other c id new (get before id) (channel_phases before after) no_phases k.0 (ground arith)
      (phases_absent c before after k.1 (ground arith))

channel_phases-own :
    (c : ℕ) (before after : Assoc ℕ Channel)
    → IsKeyed after
    → IsDistinct after
    → Restricted c (channel_phases before after) (own_phases c (get before c) (get after c))
unfolding channel_phases get
channel_phases-own c before [] k d = record { creates = refl; updates = refl; removals = refl }
channel_phases-own c before ((id, new) ∷ after) k d = elim (Bool-cases (id == c)) [
  | inl mine ↦
      let e : id ≡ c = (nat_eq.beq_iff id c).0 mine in
      rw mine (
        subst
          (λ t.
            Restricted c (channel_step new (get before t) t (channel_phases before after))
              (channel_step new (get before c) c no_phases))
          (sym e)
          (step_own c new (get before c) (channel_phases before after) (k.0 ∙ e)
            (phases_absent c before after k.1 (subst (λ t. get after t ≡ none) e d.0))))
  | inr other ↦ rw other (
      step_other c id new (get before id) (channel_phases before after) _ k.0 other
        (channel_phases-own c before after k.1 d.1))
]

gone_absent :
    (c : ℕ) (before after : Assoc ℕ Channel)
    → get before c ≡ none
    → own_removals c (gone_channels before after) ≡ []
unfolding gone_channels get
gone_absent c [] after h = refl
gone_absent c ((id, old) ∷ before) after h = ground (arith, gone_absent c before after)

gone_channels-own :
    (c : ℕ) (before after : Assoc ℕ Channel)
    → IsDistinct before
    → own_removals c (gone_channels before after) ≡ own_gone c (get before c) (get after c)
unfolding gone_channels get
gone_channels-own c [] after d = refl
gone_channels-own c ((id, old) ∷ before) after d =
    ground (arith, gone_channels-own c before after d.1, gone_absent c before after)

-- The operations on `c` in the whole plan, in their order.
abbrev pub creation_op : Channel → PlannedOp
creation_op channel = planned (create_channel channel) channel.scope

abbrev pub removal_op : ℕ × Scope → PlannedOp
removal_op r = planned (remove_channel r.0) r.1

abbrev pub own_ops : ChannelPhases → List (ℕ × Scope) → List PlannedOp
own_ops p gone = map creation_op p.creates ++ (p.updates ++ map removal_op (p.removals ++ gone))

own-creations :
    (c : ℕ) (cs : List Channel) → own c (map creation_op cs) ≡ map creation_op (own_creates c cs)
own-creations c [] = refl
own-creations c (x ∷ cs) = ground (arith, own-creations c cs)

own-removal_ops :
    (c : ℕ) (rs : List (ℕ × Scope)) → own c (map removal_op rs) ≡ map removal_op (own_removals c rs)
own-removal_ops c [] = refl
own-removal_ops c (r ∷ rs) = ground (arith, own-removal_ops c rs)

-- No operation on a user is on a channel.
user_step_none :
    (c session : ℕ) (new : User) (before : Option User) (p : UserPhases)
    → (own c p.adds ≡ []) × (own c p.moves ≡ []) × (own c p.updates ≡ []) × (own c p.removals ≡ [])
    → let q = user_step new before session p in
      (own c q.adds ≡ []) × (own c q.moves ≡ []) × (own c q.updates ≡ []) × (own c q.removals ≡ [])
unfolding user_step
user_step_none c session new none p h = h
user_step_none c session new (some old) p h = elim (Bool-cases (old.scope == new.scope)) [
  | inl same ↦
      rw (same, user_step)
        (
          h.0,
          filter_skip_if _ (old.channel == new.channel)
              (planned (move_user session new.channel) new.scope) p.moves refl h.1,
          filter_skip_if _ (user_is_noop (user_patch old new))
              (planned (update_user (user_patch old new)) new.scope) p.updates refl h.2,
          h.3,
        )
  | inr moved ↦ rw (moved, user_step) (h.0, h.1, h.2, h.3)
]

user_phases_none :
    (c : ℕ) (before after : Assoc ℕ User)
    → let q = user_phases before after in
      (own c q.adds ≡ []) × (own c q.moves ≡ []) × (own c q.updates ≡ []) × (own c q.removals ≡ [])
unfolding user_phases
user_phases_none c before [] = (refl, refl, refl, refl)
user_phases_none c before ((session, new) ∷ after) =
    user_step_none c session new (get before session) (user_phases before after)
      (user_phases_none c before after)

gone_users_none : (c : ℕ) (before after : Assoc ℕ User) → own c (gone_users before after) ≡ []
unfolding gone_users
gone_users_none c [] after = refl
gone_users_none c ((session, old) ∷ before) after = ground (arith, gone_users_none c before after)

own_join :
    (c : ℕ) (xs ys : List PlannedOp) {xs' ys' : List PlannedOp}
    → own c xs ≡ xs'
    → own c ys ≡ ys'
    → own c (xs ++ ys) ≡ xs' ++ ys'
own_join c xs ys p q = filter-append (λ (p : PlannedOp). about c p.op) xs ys ∙ ap₂ ◌++◌ p q

-- A plan has at most one creation and one removal of a channel.
creates_single :
    (c : ℕ) (before after : Option Channel) → length (own_phases c before after).creates ≤ 1
unfolding channel_step
creates_single c before none = omega arith
creates_single c none (some new) = omega arith
creates_single c (some old) (some new) = elim (Bool-cases (old.scope == new.scope)) [
  | inl same ↦ rw (same, channel_step) (omega arith)
  | inr moved ↦ rw (moved, channel_step) (omega arith)
]

removals_single :
    (c : ℕ) (before after : Option Channel)
    → length ((own_phases c before after).removals ++ own_gone c before after) ≤ 1
unfolding channel_step
removals_single c none none = omega arith
removals_single c (some old) none = omega arith
removals_single c none (some new) = omega arith
removals_single c (some old) (some new) = elim (Bool-cases (old.scope == new.scope)) [
  | inl same ↦ rw (same, channel_step) (omega arith)
  | inr moved ↦ rw (moved, channel_step) (omega arith)
]

own-order_creations :
    (c : ℕ) (cs : List Channel) (before : ShardView) {own' : List Channel}
    → own_creates c cs ≡ own'
    → length own' ≤ 1
    → own_creates c (order_creations cs before) ≡ own'
own-order_creations c cs before e h =
    sym (filter_single_perm _ (order_creations-perm cs before) (omega (arith, ap length e))) ∙ e

own-order_removals :
    (c : ℕ) (rs : List (ℕ × Scope)) (before : ShardView) {own' : List (ℕ × Scope)}
    → own_removals c rs ≡ own'
    → length own' ≤ 1
    → own_removals c (order_removals rs before) ≡ own'
own-order_removals c rs before e h =
    sym (filter_single_perm _ (order_removals-perm rs before) (omega (arith, ap length e))) ∙ e

pub plan-own :
    (c : ℕ) (before after : ShardView)
    → IsKeyed after.channels
    → IsDistinct before.channels
    → IsDistinct after.channels
    → own c (plan before after)
      ≡ own_ops
          (own_phases c (get before.channels c) (get after.channels c))
          (own_gone c (get before.channels c) (get after.channels c))
unfolding plan
plan-own c before after k d e =
    let r = channel_phases-own c before.channels after.channels k e in
    let old = get before.channels c in
    let new = get after.channels c in
    let ch = channel_phases before.channels after.channels in
    let us = user_phases before.users after.users in
    let nothing = user_phases_none c before.users after.users in
    let gone = gone_channels before.channels after.channels in
    let cs = order_creations ch.creates before in
    let rs = order_removals (ch.removals ++ gone) before in
    let dead = us.removals ++ gone_users before.users after.users in
    let l6 = dead ++ map removal_op rs in
    let l5 = us.updates ++ l6 in
    let l4 = us.moves ++ l5 in
    let l3 = us.adds ++ l4 in
    let created = own-order_creations c ch.creates before r.creates (creates_single c old new) in
    let withdrawn =
      own-order_removals c (ch.removals ++ gone) before
        (filter-append (λ (x : ℕ × Scope). x.0 == c) ch.removals gone
          ∙ ap₂ ◌++◌ r.removals (gone_channels-own c before.channels after.channels d))
        (removals_single c old new) in
    own_join c (map creation_op cs) (ch.updates ++ l3)
      (own-creations c cs ∙ ap (map creation_op) created)
      (own_join c ch.updates l3 r.updates (
        own_join c us.adds l4 nothing.0 (
          own_join c us.moves l5 nothing.1 (
            own_join c us.updates l6 nothing.2 (
              own_join c dead (map removal_op rs)
                (own_join c us.removals (gone_users before.users after.users) nothing.3
                  (gone_users_none c before.users after.users))
                (own-removal_ops c rs ∙ ap (map removal_op) withdrawn))))))
