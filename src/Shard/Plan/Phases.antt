-- ===== src/Shard/Plan/Phases.antt =====
-- The phases of a plan: every creation, change and move stands before every removal.
use mumble_server_runtime.Base.{
  ℕ, ◌≡◌, refl, ap₂, ◌∙◌, inl, inr, Bool, not, Option, none, some, List, [], ◌∷◌, ◌++◌, arith,
  filter, filter-append, filter_skip_if, map, nat_eq, ap, sym, append_assoc, ◌==◌, Bool-cases,
}
use mumble_server_runtime.Base.Assoc.{Assoc, get}
use mumble_server_runtime.Shard.Scope.{Scope, scope_eq}
use mumble_server_runtime.Shard.View.{Channel, User, ShardView}
use mumble_server_runtime.Shard.Plan.{
  PlannedOp, planned, update_channel, move_user, update_user, is_removal, channel_patch,
  channel_is_noop, plan, ChannelPhases, UserPhases, channel_change, channel_step, channel_phases,
  gone_channels, user_patch, user_is_noop, user_change, user_step, user_phases, gone_users,
}
use mumble_server_runtime.Shard.Plan.Channels.{creation_op, removal_op}
use mumble_server_runtime.Shard.Plan.Ordering.{order_creations, order_removals}

abbrev pub removes : PlannedOp → Bool
removes p = is_removal p.op

abbrev pub keeps : PlannedOp → Bool
keeps p = not (is_removal p.op)

channel_step_phased :
    (id : ℕ) (new : Channel) (before : Option Channel) (p : ChannelPhases)
    → filter removes p.updates ≡ []
    → filter removes (channel_step new before id p).updates ≡ []
unfolding channel_step channel_change is_removal
channel_step_phased id new none p h = h
channel_step_phased id new (some old) p h = elim (Bool-cases (old.scope == new.scope)) [
  | inl same ↦
      rw (same, channel_step)
        (filter_skip_if removes (channel_is_noop (channel_patch old new))
          (planned (update_channel (channel_patch old new)) new.scope) p.updates refl h)
  | inr moved ↦ rw (moved, channel_step) h
]

channel_phases_phased :
    (before after : Assoc ℕ Channel) → filter removes (channel_phases before after).updates ≡ []
unfolding channel_phases
channel_phases_phased before [] = refl
channel_phases_phased before ((id, new) ∷ after) =
    channel_step_phased id new (get before id) (channel_phases before after)
      (channel_phases_phased before after)

record UsersPhased (q : UserPhases) : Type 0 where
  adds : filter removes q.adds ≡ []
  moves : filter removes q.moves ≡ []
  updates : filter removes q.updates ≡ []
  removals : filter keeps q.removals ≡ []

user_step_phased :
    (session : ℕ) (new : User) (before : Option User) (p : UserPhases)
    → UsersPhased p
    → UsersPhased (user_step new before session p)
unfolding user_step user_change is_removal
user_step_phased session new none p h = record {
  adds = h.adds;
  moves = h.moves;
  updates = h.updates;
  removals = h.removals;
}
user_step_phased session new (some old) p h = elim (Bool-cases (old.scope == new.scope)) [
  | inl same ↦
      rw (same, user_step)
        (record {
          adds = h.adds;
          moves =
              filter_skip_if removes (old.channel == new.channel)
                (planned (move_user session new.channel) new.scope) p.moves refl h.moves;
          updates =
              filter_skip_if removes (user_is_noop (user_patch old new))
                (planned (update_user (user_patch old new)) new.scope) p.updates refl h.updates;
          removals = h.removals;
        })
  | inr moved ↦
      rw (moved, user_step)
        (record { adds = h.adds; moves = h.moves; updates = h.updates; removals = h.removals })
]

user_phases_phased : (before after : Assoc ℕ User) → UsersPhased (user_phases before after)
unfolding user_phases
user_phases_phased before [] = record { adds = refl; moves = refl; updates = refl; removals = refl }
user_phases_phased before ((session, new) ∷ after) =
    user_step_phased session new (get before session) (user_phases before after)
      (user_phases_phased before after)

gone_users_phased : (before after : Assoc ℕ User) → filter keeps (gone_users before after) ≡ []
unfolding gone_users is_removal
gone_users_phased [] after = refl
gone_users_phased ((session, old) ∷ before) after = ground (arith, gone_users_phased before after)

creations_phased : (cs : List Channel) → filter removes (map creation_op cs) ≡ []
unfolding is_removal
creations_phased [] = refl
creations_phased (x ∷ cs) = creations_phased cs

removals_phased : (rs : List (ℕ × Scope)) → filter keeps (map removal_op rs) ≡ []
unfolding is_removal
removals_phased [] = refl
removals_phased (r ∷ rs) = removals_phased rs

-- The operations before the removals, and the removals.
pub record PhaseSplit (ops : List PlannedOp) : Type 0 where
  pub front : List PlannedOp
  pub back : List PlannedOp
  pub joined : ops ≡ front ++ back
  pub front_keeps : filter removes front ≡ []
  pub back_removes : filter keeps back ≡ []

join_keeps :
    (xs ops : List PlannedOp) → filter removes xs ≡ [] → PhaseSplit ops → PhaseSplit (xs ++ ops)
join_keeps xs ops h s = record {
  front = xs ++ s.front;
  back = s.back;
  joined = ap (xs ++◌) s.joined ∙ sym (append_assoc xs s.front s.back);
  front_keeps = filter-append removes xs s.front ∙ ap₂ ◌++◌ h s.front_keeps;
  back_removes = s.back_removes;
}

all_back : (ops : List PlannedOp) → filter keeps ops ≡ [] → PhaseSplit ops
all_back ops h = record {
  front = [];
  back = ops;
  joined = refl;
  front_keeps = refl;
  back_removes = h;
}

pub plan_phased : (before after : ShardView) → PhaseSplit (plan before after)
unfolding plan
plan_phased before after =
    let ch = channel_phases before.channels after.channels in
    let us = user_phases before.users after.users in
    let u = user_phases_phased before.users after.users in
    let dead = us.removals ++ gone_users before.users after.users in
    let cs = order_creations ch.creates before in
    let rs = order_removals (ch.removals ++ gone_channels before.channels after.channels) before in
    let l6 = dead ++ map removal_op rs in
    let l5 = us.updates ++ l6 in
    let l4 = us.moves ++ l5 in
    let l3 = us.adds ++ l4 in
    let back =
      filter-append keeps dead (map removal_op rs)
      ∙ ap₂ ◌++◌
          (filter-append keeps us.removals (gone_users before.users after.users)
            ∙ ap₂ ◌++◌ u.removals (gone_users_phased before.users after.users))
          (removals_phased rs) in
    join_keeps (map creation_op cs) (ch.updates ++ l3) (creations_phased cs) (
      join_keeps ch.updates l3 (channel_phases_phased before.channels after.channels) (
        join_keeps us.adds l4 u.adds
          (join_keeps us.moves l5 u.moves (join_keeps us.updates l6 u.updates (all_back l6 back)))))
