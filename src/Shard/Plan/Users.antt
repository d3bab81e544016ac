-- ===== src/Shard/Plan/Users.antt =====
-- The operations that a plan has on one user: they depend only on the user's entries in the two
-- views.
use mumble_server_runtime.Base.{
  ℕ, ◌≡◌, refl, sym, subst, ap₂, ◌∙◌, inl, inr, Bool, true, false, Option, none, some, List, [],
  ◌∷◌, ◌++◌, arith, filter, filter-append, map, eq_self, nat_eq, string_eq, ◌==◌, if◌then◌else◌,
  Bool-cases, append-nil, All,
}
use mumble_server_runtime.Base.Assoc.{Assoc, get, IsDistinct}
use mumble_server_runtime.Shard.Scope.{Scope, scope_eq}
use mumble_server_runtime.Shard.View.{Channel, User, ShardView, flags_eq}
use mumble_server_runtime.Shard.Plan.{
  PlanOp, PlannedOp, planned, create_channel, add_user, move_user, update_user, remove_user,
  remove_channel, user_patch, user_is_noop, plan, ChannelPhases, UserPhases, channel_step,
  channel_phases, user_change, user_step, user_phases, gone_users, gone_channels,
}
use mumble_server_runtime.Shard.Plan.Ordering.{order_creations, order_removals}

-- The operations on user `s`.
abbrev pub about : ℕ → PlanOp → Bool
about s (add_user user) = user.session == s
about s (move_user session channel) = session == s
about s (update_user p) = p.session == s
about s (remove_user session) = session == s
about s _ = false

abbrev pub about_planned : ℕ → PlannedOp → Bool
about_planned s p = about s p.op

-- Each user stands under its session.
abbrev pub IsKeyed : Assoc ℕ User → Type 0
IsKeyed m = All (λ (e : ℕ × User). e.1.session ≡ e.0) m

-- The phases of user `s` alone, from its entries in the two views.
abbrev pub own_phases : ℕ → Option User → Option User → UserPhases
own_phases s before none = record { adds = []; moves = []; updates = []; removals = [] }
own_phases s before (some new) =
    user_step new before s (record { adds = []; moves = []; updates = []; removals = [] })

abbrev pub own_gone : ℕ → Option User → Option User → List PlannedOp
own_gone s (some old) none = planned (remove_user s) old.scope ∷ []
own_gone s _ _ = []

abbrev own : ℕ → List PlannedOp → List PlannedOp
own s = filter (about_planned s)

-- What `user_step` pushes of user `s`.
record Restricted (s : ℕ) (p q : UserPhases) : Type 0 where
  adds : own s p.adds ≡ q.adds
  moves : own s p.moves ≡ q.moves
  updates : own s p.updates ≡ q.updates
  removals : own s p.removals ≡ q.removals

step_other :
    (s session : ℕ) (new : User) (before : Option User) (p q : UserPhases)
    → new.session ≡ session
    → (session == s) ≡ false
    → Restricted s p q
    → Restricted s (user_step new before session p) q
unfolding user_step user_change user_patch
step_other s session new none p q k ne r = ground arith
step_other s session new (some old) p q k ne r = ground arith

abbrev pub no_phases : UserPhases
no_phases = record { adds = []; moves = []; updates = []; removals = [] }

own_cons_if :
    (s : ℕ) (skip : Bool) (op : PlannedOp) (ops : List PlannedOp)
    → about_planned s op ≡ true
    → own s ops ≡ []
    → own s (if skip then ops else op ∷ ops) ≡ (if skip then [] else op ∷ [])
own_cons_if s true op ops h e = e
own_cons_if s false op ops h e = rw (h, e)

pub session_matches : (s : ℕ) (new : User) → new.session ≡ s → (new.session == s) ≡ true
session_matches s new k = ground arith

change_own :
    (s : ℕ) (old new : User) (p : UserPhases)
    → new.session ≡ s
    → Restricted s p no_phases
    → Restricted s (user_change old new s p) (user_change old new s no_phases)
unfolding user_change
change_own s old new p k r = record {
  adds = r.adds;
  moves =
      own_cons_if s (old.channel == new.channel) (planned (move_user s new.channel) new.scope)
        p.moves (eq_self s) r.moves;
  updates =
      own_cons_if s (user_is_noop (user_patch old new))
        (planned (update_user (user_patch old new)) new.scope) p.updates
        (unfold user_patch in session_matches s new k) r.updates;
  removals = r.removals;
}

step_own :
    (s : ℕ) (new : User) (before : Option User) (p : UserPhases)
    → new.session ≡ s
    → Restricted s p no_phases
    → Restricted s (user_step new before s p) (user_step new before s no_phases)
unfolding user_step
step_own s new none p k r = record {
  adds =
      own_cons_if s false (planned (add_user new) new.scope) p.adds (session_matches s new k)
        r.adds;
  moves = r.moves;
  updates = r.updates;
  removals = r.removals;
}
step_own s new (some old) p k r = elim (Bool-cases (old.scope == new.scope)) [
  | inl same ↦ rw (same, user_step) (change_own s old new p k r)
  | inr moved ↦
      rw (moved, user_step)
        (record {
          adds =
              own_cons_if s false (planned (add_user new) new.scope) p.adds
                (session_matches s new k) r.adds;
          moves = r.moves;
          updates = r.updates;
          removals =
              own_cons_if s false (planned (remove_user s) old.scope) p.removals (eq_self s)
                r.removals;
        })
]

phases_absent :
    (s : ℕ) (before after : Assoc ℕ User)
    → IsKeyed after
    → get after s ≡ none
    → Restricted s (user_phases before after) no_phases
unfolding user_phases get
phases_absent s before [] k h = record {
  adds = refl;
  moves = refl;
  updates = refl;
  removals = refl;
}
phases_absent s before ((session, new) ∷ after) k h =
    step_other s session new (get before session) (user_phases before after) no_phases k.0
      (ground arith) (phases_absent s before after k.1 (ground arith))

user_phases-own :
    (s : ℕ) (before after : Assoc ℕ User)
    → IsKeyed after
    → IsDistinct after
    → Restricted s (user_phases before after) (own_phases s (get before s) (get after s))
unfolding user_phases get
user_phases-own s before [] k d = record {
  adds = refl;
  moves = refl;
  updates = refl;
  removals = refl;
}
user_phases-own s before ((session, new) ∷ after) k d = elim (Bool-cases (session == s)) [
  | inl mine ↦
      let e : session ≡ s = ground arith in
      rw mine (
        subst
          (λ t.
            Restricted s (user_step new (get before t) t (user_phases before after))
              (user_step new (get before s) s no_phases))
          (sym e)
          (step_own s new (get before s) (user_phases before after) (k.0 ∙ e)
            (phases_absent s before after k.1 (subst (λ t. get after t ≡ none) e d.0))))
  | inr other ↦ rw other (
      step_other s session new (get before session) (user_phases before after) _ k.0 other
        (user_phases-own s before after k.1 d.1))
]

gone_absent :
    (s : ℕ) (before after : Assoc ℕ User)
    → get before s ≡ none
    → own s (gone_users before after) ≡ []
unfolding gone_users get
gone_absent s [] after h = refl
gone_absent s ((session, old) ∷ before) after h = ground (arith, gone_absent s before after)

gone_users-own :
    (s : ℕ) (before after : Assoc ℕ User)
    → IsDistinct before
    → own s (gone_users before after) ≡ own_gone s (get before s) (get after s)
unfolding gone_users get
gone_users-own s [] after d = refl
gone_users-own s ((session, old) ∷ before) after d =
    ground (arith, gone_users-own s before after d.1, gone_absent s before after)

-- No operation on a channel is on a user.
creates_none :
    (s : ℕ) (cs : List Channel)
    → own s (map (λ (c : Channel). planned (create_channel c) c.scope) cs) ≡ []
creates_none s [] = refl
creates_none s (c ∷ cs) = creates_none s cs

removals_none :
    (s : ℕ) (rs : List (ℕ × Scope))
    → own s (map (λ (r : ℕ × Scope). planned (remove_channel r.0) r.1) rs) ≡ []
removals_none s [] = refl
removals_none s (r ∷ rs) = removals_none s rs

updates_step :
    (s : ℕ) (new : Channel) (old : Option Channel) (id : ℕ) (p : ChannelPhases)
    → own s p.updates ≡ []
    → own s (channel_step new old id p).updates ≡ []
unfolding channel_step
updates_step s new none id p h = h
updates_step s new (some old) id p h = ground arith

updates_none :
    (s : ℕ) (before after : Assoc ℕ Channel) → own s (channel_phases before after).updates ≡ []
unfolding channel_phases
updates_none s before [] = refl
updates_none s before ((id, new) ∷ after) =
    updates_step s new (get before id) id (channel_phases before after)
      (updates_none s before after)

own_join :
    (s : ℕ) (xs ys : List PlannedOp) {xs' ys' : List PlannedOp}
    → own s xs ≡ xs'
    → own s ys ≡ ys'
    → own s (xs ++ ys) ≡ xs' ++ ys'
own_join s xs ys p q = filter-append (about_planned s) xs ys ∙ ap₂ ◌++◌ p q

-- The operations on user `s` in the whole plan, in their order.
abbrev pub own_ops : UserPhases → List PlannedOp → List PlannedOp
own_ops p gone = p.adds ++ (p.moves ++ (p.updates ++ (p.removals ++ gone)))

pub plan-own :
    (s : ℕ) (before after : ShardView)
    → IsKeyed after.users
    → IsDistinct before.users
    → IsDistinct after.users
    → own s (plan before after)
      ≡ own_ops
          (own_phases s (get before.users s) (get after.users s))
          (own_gone s (get before.users s) (get after.users s))
unfolding plan
plan-own s before after k d e =
    let r = user_phases-own s before.users after.users k e in
    let rest = own_phases s (get before.users s) (get after.users s) in
    let gone = own_gone s (get before.users s) (get after.users s) in
    let ch = channel_phases before.channels after.channels in
    let us = user_phases before.users after.users in
    let cs = order_creations ch.creates before in
    let rs = order_removals (ch.removals ++ gone_channels before.channels after.channels) before in
    let dead = us.removals ++ gone_users before.users after.users in
    let l6 = dead ++ map (λ (x : ℕ × Scope). planned (remove_channel x.0) x.1) rs in
    let l5 = us.updates ++ l6 in
    let l4 = us.moves ++ l5 in
    let l3 = us.adds ++ l4 in
    own_join s (map (λ (c : Channel). planned (create_channel c) c.scope) cs) (ch.updates ++ l3)
      (creates_none s cs)
      (own_join s ch.updates l3 (updates_none s before.channels after.channels) (
        own_join s us.adds l4 r.adds (
          own_join s us.moves l5 r.moves (
            own_join s us.updates l6 r.updates (
              own_join s dead (map (λ (x : ℕ × Scope). planned (remove_channel x.0) x.1) rs)
                (own_join s us.removals (gone_users before.users after.users) r.removals
                  (gone_users-own s before.users after.users d))
                (removals_none s rs)
              ∙ append-nil (rest.removals ++ gone))))))
