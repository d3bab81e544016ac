-- ===== src/Shard/Plan/Overlay/Users.antt =====
-- The operations that an overlay's transition has on one user: they depend only on the user's
-- entries in the two overlays.
use mumble_server_runtime.Base.{
  ℕ, ◌≡◌, refl, sym, subst, ap, ap₂, ◌∙◌, inl, inr, Bool, true, false, Option, none, some, List, [],
  ◌∷◌, ◌++◌, arith, filter, filter-append, filter_skip, filter_skip_if, map, nat_eq, eq_self, ◌==◌,
  if◌then◌else◌, Bool-cases, append-nil,
}
use mumble_server_runtime.Base.Assoc.{Assoc, get, IsDistinct}
use mumble_server_runtime.Base.Order.{sort_by}
use mumble_server_runtime.Shard.View.{Channel, User, Overlay, empty}
use mumble_server_runtime.Shard.Plan.{
  PlanOp, create_channel, update_channel, add_user, move_user, update_user, remove_user,
  remove_channel, user_patch, user_is_noop, channel_patch, channel_is_noop,
}
use mumble_server_runtime.Shard.Plan.Ordering.{order_creations}
use mumble_server_runtime.Shard.Plan.Users.{about, IsKeyed, session_matches}
use mumble_server_runtime.Shard.Plan.Overlay.{
  overlay_depth, ElementPhases, element_step, element_phases, withdrawn, trailing_step, trailing,
  deeper_first, plan_elements,
}

-- The key alone, where it was there and is gone.
abbrev pub own_key {ℓ} : {V : Type ℓ} → ℕ → Option V → Option V → List ℕ
own_key k (some old) none = k ∷ []
own_key k _ _ = []

abbrev pub own_keys : ℕ → List ℕ → List ℕ
own_keys k = filter (λ j. j == k)

withdrawn_absent {ℓ} :
    {V : Type ℓ} (k : ℕ) (before after : Assoc ℕ V)
    → get before k ≡ none
    → own_keys k (withdrawn before after) ≡ []
unfolding withdrawn get
withdrawn_absent k [] after h = refl
withdrawn_absent k ((j, old) ∷ before) after h = ground (arith, withdrawn_absent k before after)

pub withdrawn-own {ℓ} :
    {V : Type ℓ} (k : ℕ) (before after : Assoc ℕ V)
    → IsDistinct before
    → own_keys k (withdrawn before after) ≡ own_key k (get before k) (get after k)
unfolding withdrawn get
withdrawn-own k [] after d = refl
withdrawn-own k ((j, old) ∷ before) after d =
    ground (arith, withdrawn-own k before after d.1, withdrawn_absent k before after)

-- The operations after the channels', from the user's entries.
abbrev pub own_trailing : ℕ → Option User → Option User → List PlanOp
own_trailing s before none = []
own_trailing s before (some new) = trailing_step new before s []

abbrev own : ℕ → List PlanOp → List PlanOp
own s = filter (about s)

step_other :
    (s session : ℕ) (new : User) (before : Option User) (rest : List PlanOp) {own' : List PlanOp}
    → new.session ≡ session
    → (session == s) ≡ false
    → own s rest ≡ own'
    → own s (trailing_step new before session rest) ≡ own'
unfolding trailing_step user_patch
step_other s session new none rest k ne r =
    filter_skip (about s) (add_user new) rest (ground arith) r
step_other s session new (some old) rest k ne r =
    filter_skip_if (about s) (old.channel == new.channel) (move_user session new.channel) _ ne (
      filter_skip_if (about s) (user_is_noop (user_patch old new))
        (update_user (user_patch old new)) rest (ground arith) r)

own_onto :
    (s : ℕ) (skip : Bool) (op : PlanOp) (ops ops' : List PlanOp)
    → about s op ≡ true
    → own s ops ≡ ops'
    → own s (if skip then ops else op ∷ ops) ≡ (if skip then ops' else op ∷ ops')
own_onto s true op ops ops' h e = e
own_onto s false op ops ops' h e = rw (h, e)

step_own :
    (s : ℕ) (new : User) (before : Option User) (rest : List PlanOp)
    → new.session ≡ s
    → own s rest ≡ []
    → own s (trailing_step new before s rest) ≡ trailing_step new before s []
unfolding trailing_step user_patch
step_own s new none rest k r = own_onto s false (add_user new) rest [] (session_matches s new k) r
step_own s new (some old) rest k r =
    own_onto s (old.channel == new.channel) (move_user s new.channel) _ _ (eq_self s) (
      own_onto s (user_is_noop (user_patch old new)) (update_user (user_patch old new)) rest []
        (session_matches s new k) r)

trailing_absent :
    (s : ℕ) (before after : Assoc ℕ User)
    → IsKeyed after
    → get after s ≡ none
    → own s (trailing before after) ≡ []
unfolding trailing get
trailing_absent s before [] k h = refl
trailing_absent s before ((session, new) ∷ after) k h =
    step_other s session new (get before session) (trailing before after) k.0 (ground arith)
      (trailing_absent s before after k.1 (ground arith))

trailing-own :
    (s : ℕ) (before after : Assoc ℕ User)
    → IsKeyed after
    → IsDistinct after
    → own s (trailing before after) ≡ own_trailing s (get before s) (get after s)
unfolding trailing get
trailing-own s before [] k d = refl
trailing-own s before ((session, new) ∷ after) k d = elim (Bool-cases (session == s)) [
  | inl mine ↦
      let e : session ≡ s = (nat_eq.beq_iff session s).0 mine in
      rw mine (
        subst
          (λ t.
            own s (trailing_step new (get before t) t (trailing before after))
            ≡ trailing_step new (get before s) s [])
          (sym e)
          (step_own s new (get before s) (trailing before after) (k.0 ∙ e)
            (trailing_absent s before after k.1 (subst (λ t. get after t ≡ none) e d.0))))
  | inr other ↦ rw other (
      step_other s session new (get before session) (trailing before after) k.0 other
        (trailing-own s before after k.1 d.1))
]

-- No operation on a channel is on a user.
creates_none : (s : ℕ) (cs : List Channel) → own s (map create_channel cs) ≡ []
creates_none s [] = refl
creates_none s (c ∷ cs) = creates_none s cs

removes_none : (s : ℕ) (rs : List (ℕ × ℕ)) → own s (map (λ (r : ℕ × ℕ). remove_channel r.0) rs) ≡ []
removes_none s [] = refl
removes_none s (r ∷ rs) = removes_none s rs

element_step_none :
    (s : ℕ) (new : Channel) (o : Option Channel) (rest : ElementPhases)
    → own s rest.updates ≡ []
    → own s (element_step new o rest).updates ≡ []
unfolding element_step
element_step_none s new none rest h = h
element_step_none s new (some old) rest h =
    filter_skip_if (about s) (channel_is_noop (channel_patch old new))
      (update_channel (channel_patch old new)) rest.updates refl h

updates_none :
    (s : ℕ) (before after : Assoc ℕ Channel) → own s (element_phases before after).updates ≡ []
unfolding element_phases
updates_none s before [] = refl
updates_none s before ((id, new) ∷ after) =
    element_step_none s new (get before id) (element_phases before after)
      (updates_none s before after)

own-removals : (s : ℕ) (ss : List ℕ) → own s (map remove_user ss) ≡ map remove_user (own_keys s ss)
own-removals s [] = refl
own-removals s (x ∷ ss) = ground (arith, own-removals s ss)

-- An overlay's own operations on a user, among its additions and its removals.
pub plan_elements-own :
    (s : ℕ) (before after : Overlay)
    → IsKeyed after.users
    → IsDistinct before.users
    → IsDistinct after.users
    → let ops = plan_elements before after in
      let old = get before.users s in
      let new = get after.users s in
      (own s ops.additions ≡ own_trailing s old new)
      × (own s ops.removals ≡ map remove_user (own_key s old new))
unfolding plan_elements
plan_elements-own s before after k d e =
    let channels = element_phases before.channels after.channels in
    let cs = order_creations channels.creates empty in
    let rest = trailing before.users after.users in
    let left = withdrawn before.users after.users in
    let gone = sort_by deeper_first (
      map (λ id. (id, overlay_depth before.channels id))
        (withdrawn before.channels after.channels)) in
    (
      filter-append (about s) (map create_channel cs) (channels.updates ++ rest)
          ∙ ap₂ ◌++◌ (creates_none s cs) (
              filter-append (about s) channels.updates rest
              ∙ ap₂ ◌++◌ (updates_none s before.channels after.channels)
                  (trailing-own s before.users after.users k e)),
      filter-append (about s) (map remove_user left) (map (λ (r : ℕ × ℕ). remove_channel r.0) gone)
          ∙ ap₂ ◌++◌
              (own-removals s left
                ∙ ap (map remove_user) (withdrawn-own s before.users after.users d))
              (removes_none s gone)
          ∙ append-nil (map remove_user (own_key s (get before.users s) (get after.users s))),
    )
