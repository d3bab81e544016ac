-- ===== src/Shard/Client/Users.antt =====
-- A planned transition, filtered for an observer, gives every user the state that the new view
-- shows the observer.
pub mod Spliced
use mumble_server_runtime.Base.{
  ℕ, ◌≡◌, refl, sym, ap, ap₂, ◌∙◌, inl, inr, Bool, true, false, not, Option, none, some, List, [],
  ◌∷◌, ◌++◌, arith, filter, nat_eq, string_eq, ◌==◌, eq_self, if◌then◌else◌, Bool-cases,
}
use mumble_server_runtime.Base.Assoc.{Assoc, get, IsDistinct, get-retain}
use mumble_server_runtime.Shard.Scope.{Scope, scope_eq, scope_beq_iff}
use mumble_server_runtime.Shard.ScopeSet.{ScopeSet, sees}
use mumble_server_runtime.Shard.View.{User, ShardView, restrict, flags_eq}
use mumble_server_runtime.Shard.Plan.{
  PlanOp, PlannedOp, planned, create_channel, update_channel, add_user, move_user, update_user,
  remove_user, remove_channel, user_element, added, removed, user_patch, user_is_noop, user_step,
  plan, UserPatch,
}
use mumble_server_runtime.Shard.Plan.Users.{
  about, IsKeyed, session_matches, own_phases, own_gone, own_ops, plan-own,
}
use mumble_server_runtime.Shard.Compose.{filter_ops, added_contains, kept, collapse, ◌is_added_by◌}
use mumble_server_runtime.Shard.Client.Element.{run, kept_own, own_collapsed, own_effect}
use mumble_server_runtime.Shard.Client.{
  ShownUser, shown_user, patched_user, act_user, or_else_changed, eq_of_unchanged, ClientView,
  apply, apply_all, shown, shown_option,
}

users-apply_all :
    (ops : List PlanOp) (v : ClientView) (s : ℕ)
    → (apply_all v ops).users s ≡ run (act_user s) (v.users s) ops
unfolding apply_all run
users-apply_all [] v s = refl
users-apply_all (op ∷ ops) v s = users-apply_all ops (apply v op) s

act_other :
    (s : ℕ) (st : Option ShownUser) (op : PlanOp) → about s op ≡ false → act_user s st op ≡ st
unfolding act_user
act_other s st op h = ground arith

not_added : (s : ℕ) (op : PlanOp) → about s op ≡ false → (user_element s is_added_by op) ≡ false
unfolding added
not_added s op h = ground arith

kept-about :
    (s : ℕ) (ops : List PlanOp) (op : PlanOp)
    → about s op ≡ true
    → kept ops op ≡ kept_own (added_contains ops (user_element s)) op
unfolding removed
kept-about s ops (remove_user session) h =
    let e : session ≡ s = ground arith in ap (λ t. not (added_contains ops (user_element t))) e
kept-about s ops (add_user user) h = refl
kept-about s ops (move_user session channel) h = refl
kept-about s ops (update_user p) h = refl
kept-about s ops (create_channel c) h = refl
kept-about s ops (update_channel p) h = refl
kept-about s ops (remove_channel c) h = cc

-- What an observer sees of an entry.
abbrev visible : ScopeSet → Option User → Option User
visible see none = none
visible see (some user) = if sees see user.scope then some user else none

patched-shown :
    (old new : User)
    → patched_user (user_patch old new) (record (shown_user old) { channel = new.channel })
      ≡ shown_user new
unfolding user_patch
patched-shown old new =
    ap₂ (λ n f. record { channel = new.channel; name = n; flags = f })
      (or_else_changed old.name new.name) (or_else_changed old.flags new.flags)

noop-shown :
    (old new : User)
    → user_is_noop (user_patch old new) ≡ true
    → (old.name ≡ new.name) × (old.flags ≡ new.flags)
unfolding user_patch user_is_noop
noop-shown old new h = (
  eq_of_unchanged old.name new.name (ground arith),
  eq_of_unchanged old.flags new.flags (ground arith),
)

act_update :
    (s : ℕ) (old new : User) (u : ShownUser)
    → new.session ≡ s
    → act_user s (some u) (update_user (user_patch old new))
      ≡ some (patched_user (user_patch old new) u)
unfolding act_user user_patch
act_update s old new u k = rw (k, eq_self s)

act_move :
    (s channel : ℕ) (u : ShownUser)
    → act_user s (some u) (move_user s channel) ≡ some (record u { channel = channel })
unfolding act_user
act_move s channel u = rw (eq_self s)

act_add :
    (s : ℕ) (new : User) (st : Option ShownUser)
    → new.session ≡ s
    → act_user s st (add_user new) ≡ some (shown_user new)
unfolding act_user
act_add s new st k = rw (k, eq_self s)

act_remove : (s : ℕ) (st : Option ShownUser) → act_user s st (remove_user s) ≡ none
unfolding act_user
act_remove s st = rw (eq_self s)

after_move : User → User → ShownUser
after_move old new = record (shown_user old) { channel = new.channel }

-- The move and the update of a change within one scope, each there or left out.
abbrev change_ops : Bool → Bool → ℕ → ℕ → UserPatch → Scope → List PlannedOp
change_ops still same s channel p scope =
    (if still then [] else planned (move_user s channel) scope ∷ [])
    ++ ((if same then [] else planned (update_user p) scope ∷ []) ++ [])

-- Neither adds nor removes the user.
change_kept :
    (b still same : Bool) (s channel : ℕ) (p : UserPatch) (scope : Scope) (see : ScopeSet)
    → let ops = filter_ops (change_ops still same s channel p scope) see in
      filter (kept_own b) ops ≡ ops
unfolding filter_ops
change_kept b true true s channel p scope see = refl
change_kept b true false s channel p scope see = ground arith
change_kept b false true s channel p scope see = ground arith
change_kept b false false s channel p scope see = ground arith

-- Outside the observer's sight nothing is left of it.
change_unseen :
    (still same : Bool) (s channel : ℕ) (p : UserPatch) (scope : Scope) (see : ScopeSet)
    → sees see scope ≡ false
    → filter_ops (change_ops still same s channel p scope) see ≡ []
unfolding filter_ops
change_unseen true true s channel p scope see v = refl
change_unseen true false s channel p scope see v = rw v
change_unseen false true s channel p scope see v = rw v
change_unseen false false s channel p scope see v = rw v

shown-unmoved : (old new : User) → old.channel ≡ new.channel → shown_user old ≡ after_move old new
unfolding after_move
shown-unmoved old new e = ap (λ c. record { channel = c; name = old.name; flags = old.flags }) e

shown-unchanged :
    (old new : User)
    → user_is_noop (user_patch old new) ≡ true
    → after_move old new ≡ shown_user new
unfolding after_move
shown-unchanged old new h =
    let (name, flags) = noop-shown old new h in
    ap₂ (λ n f. record { channel = new.channel; name = n; flags = f }) name flags

abbrev change_of : User → User → ℕ → List PlannedOp
change_of old new s =
    change_ops (old.channel == new.channel) (user_is_noop (user_patch old new)) s new.channel
      (user_patch old new) new.scope

-- Within one scope that the observer sees, the move and the update give the new state.
change_effect :
    (s : ℕ) (old new : User) (see : ScopeSet)
    → new.session ≡ s
    → sees see new.scope ≡ true
    → run (act_user s) (some (shown_user old)) (filter_ops (change_of old new s) see)
      ≡ some (shown_user new)
unfolding run filter_ops after_move
change_effect s old new see k v =
    let moved = act_move s new.channel (shown_user old) in
    let updated = λ (u : ShownUser). act_update s old new u k in
    elim (Bool-cases (old.channel == new.channel)) [
      | inl still ↦
          let e : old.channel ≡ new.channel = (nat_eq.beq_iff old.channel new.channel).0 still in
          elim (Bool-cases (user_is_noop (user_patch old new))) [
            | inl same ↦
                rw (still, same) (ap some (shown-unmoved old new e ∙ shown-unchanged old new same))
            | inr other ↦
                rw (still, other, v, updated (shown_user old))
                  (ap some (
                    ap (patched_user (user_patch old new)) (shown-unmoved old new e)
                    ∙ patched-shown old new))
          ]
      | inr away ↦ elim (Bool-cases (user_is_noop (user_patch old new))) [
        | inl same ↦ rw (away, same, v, moved) (ap some (shown-unchanged old new same))
        | inr other ↦
            rw (away, other, v, moved, updated (after_move old new))
              (ap some (patched-shown old new))
      ]
    ]

-- The same for what the observer saw, seen or not, whatever else is added.
same_scope_result :
    (s : ℕ) (see : ScopeSet) (old new : User) (b : Bool)
    → new.session ≡ s
    → old.scope ≡ new.scope
    → run
        (act_user s)
        (shown_option shown_user (visible see (some old)))
        (filter (kept_own b) (filter_ops (change_of old new s) see))
      ≡ shown_option shown_user (visible see (some new))
unfolding run
same_scope_result s see old new b k e =
    let kept_all =
      change_kept b (old.channel == new.channel) (user_is_noop (user_patch old new)) s new.channel
        (user_patch old new) new.scope see in
    elim (Bool-cases (sees see new.scope)) [
      | inl v ↦ rw (kept_all, ap (sees see) e ∙ v, v) (change_effect s old new see k v)
      | inr v ↦ rw (
        kept_all,
        ap (sees see) e ∙ v,
        v,
        change_unseen (old.channel == new.channel) (user_is_noop (user_patch old new)) s new.channel
            (user_patch old new) new.scope see v,
      )
    ]

-- Between scopes the user departs and arrives, and the departure is dropped if the arrival is seen.
abbrev crossing_of : User → User → ℕ → List PlannedOp
crossing_of old new s = planned (add_user new) new.scope ∷ planned (remove_user s) old.scope ∷ []

crossing_result :
    (s : ℕ) (see : ScopeSet) (old new : User)
    → new.session ≡ s
    → let ops = filter_ops (crossing_of old new s) see in
      run
        (act_user s)
        (shown_option shown_user (visible see (some old)))
        (own_collapsed (user_element s) ops)
      ≡ shown_option shown_user (visible see (some new))
unfolding run filter_ops added
crossing_result s see old new k = elim (Bool-cases (sees see new.scope)) [
  | inl v ↦ elim (Bool-cases (sees see old.scope)) [
    | inl w ↦ rw (v, w, session_matches s new k) (act_add s new (some (shown_user old)) k)
    | inr w ↦ rw (v, w) (act_add s new none k)
  ]
  | inr v ↦ elim (Bool-cases (sees see old.scope)) [
    | inl w ↦ rw (v, w) (act_remove s (some (shown_user old)))
    | inr w ↦ rw (v, w)
  ]
]

-- Whatever the two entries of a user are, the observer's transition leads from what it saw of the
-- one to what it sees of the other.
own_result :
    (s : ℕ) (see : ScopeSet) (before after : Option User)
    → ((u : User) → after ≡ some u → u.session ≡ s)
    → let ops = filter_ops (own_ops (own_phases s before after) (own_gone s before after)) see in
      run
        (act_user s)
        (shown_option shown_user (visible see before))
        (own_collapsed (user_element s) ops)
      ≡ shown_option shown_user (visible see after)
unfolding run filter_ops user_step added
own_result s see none none k = refl
own_result s see (some old) none k = elim (Bool-cases (sees see old.scope)) [
  | inl v ↦ rw v (act_remove s (some (shown_user old)))
  | inr v ↦ rw v
]
own_result s see none (some new) k = elim (Bool-cases (sees see new.scope)) [
  | inl v ↦ rw v (act_add s new none (k new refl))
  | inr v ↦ rw v
]
own_result s see (some old) (some new) k = elim (Bool-cases (old.scope == new.scope)) [
  | inl same ↦
      rw same (
        same_scope_result s see old new _ (k new refl) ((scope_beq_iff old.scope new.scope).0 same))
  | inr moved ↦ rw moved (crossing_result s see old new (k new refl))
]

get-keyed : (m : Assoc ℕ User) (s : ℕ) (u : User) → IsKeyed m → get m s ≡ some u → u.session ≡ s
unfolding get
get-keyed [] s u k h = cc
get-keyed ((session, v) ∷ m) s u k h = ground (arith, get-keyed m s u k.1)

users-restrict :
    (view : ShardView) (see : ScopeSet) (s : ℕ)
    → IsDistinct view.users
    → get (restrict view see).users s ≡ visible see (get view.users s)
unfolding restrict
users-restrict view see s d =
    get-retain (λ _ user. sees see user.scope) view.users s d ∙ as_visible (get view.users s)
  where
    as_visible :
        (o : Option User)
        → (elim o [ none ↦ none | some u ↦ if sees see u.scope then some u else none ])
          ≡ visible see o
    as_visible none = refl
    as_visible (some u) = refl

-- A transition planned from one view to another, filtered for an observer and collapsed, takes a
-- client that shows what the observer saw of the first view to one that shows, of every user, what
-- the observer sees of the second: the channel, the name and the flags, or nothing.
pub users_refine :
    (before after : ShardView) (see : ScopeSet) (s : ℕ)
    → IsKeyed after.users
    → IsDistinct before.users
    → IsDistinct after.users
    → (apply_all
          (shown (restrict before see))
          (collapse (filter_ops (plan before after) see))).users
        s
      ≡ (shown (restrict after see)).users s
unfolding shown
users_refine before after see s k d e =
    let st = shown_option shown_user (get (restrict before see).users s) in
    let effect = λ (x : Option ShownUser) (l : List PlannedOp).
      run (act_user s) x (own_collapsed (user_element s) (filter_ops l see)) in
    users-apply_all (collapse (filter_ops (plan before after) see)) (shown (restrict before see)) s
    ∙ own_effect (about s) (act_user s) (user_element s) (act_other s) (not_added s) (kept-about s)
        (plan before after) see st
    ∙ ap₂ effect (ap (shown_option shown_user) (users-restrict before see s d))
        (plan-own s before after k d e)
    ∙ own_result s see (get before.users s) (get after.users s) (λ u. get-keyed after.users s u k)
    ∙ sym (ap (shown_option shown_user) (users-restrict after see s e))
