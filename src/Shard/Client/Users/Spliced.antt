-- ===== src/Shard/Client/Users/Spliced.antt =====
-- A connection's transition on the fast path, its overlay's operations spliced in, gives every user
-- the state that the connection is to show.
use mumble_server_runtime.Base.{
  ℕ, ◌≡◌, refl, sym, ap, ap₂, ◌∙◌, inl, inr, Bool, Option, none, some, List, [], ◌++◌, filter, map,
  nat_eq, ◌==◌, Bool-cases,
}
use mumble_server_runtime.Base.Assoc.{get, IsDistinct}
use mumble_server_runtime.Shard.ScopeSet.{ScopeSet, sees}
use mumble_server_runtime.Shard.View.{User, ShardView, Overlay, restrict, compose}
use mumble_server_runtime.Shard.View.Composed.{or_from, compose_lem}
use mumble_server_runtime.Shard.Plan.{
  PlanOp, remove_user, user_element, added, is_removal, user_patch, user_is_noop, user_step, plan,
}
use mumble_server_runtime.Shard.Plan.Users.{
  about, IsKeyed, session_matches, own_phases, own_gone, own_ops, plan-own,
}
use mumble_server_runtime.Shard.Plan.Overlay.{trailing_step, plan_elements}
use mumble_server_runtime.Shard.Plan.Overlay.Users.{own_key, own_trailing, plan_elements-own}
use mumble_server_runtime.Shard.Compose.{filter_ops, splice, collapse}
use mumble_server_runtime.Shard.Compose.Order.{adds, filter-splice, own_rejoined}
use mumble_server_runtime.Shard.Client.Element.{
  run, kept_own, own_collapsed, all_kept, collapse_effect, about-filter_ops,
}
use mumble_server_runtime.Shard.Client.Users.{
  users-apply_all, act_other, not_added, kept-about, visible, patched-shown, act_update, act_move,
  act_add, act_remove, after_move, shown-unmoved, shown-unchanged, own_result, get-keyed,
  users-restrict,
}
use mumble_server_runtime.Shard.Client.{
  ShownUser, shown_user, patched_user, act_user, apply_all, shown, shown_option,
}

-- A user that the overlay keeps gets its new state.
trailing_effect :
    (s : ℕ) (old new : User)
    → new.session ≡ s
    → run (act_user s) (some (shown_user old)) (trailing_step new (some old) s [])
      ≡ some (shown_user new)
unfolding run trailing_step after_move
trailing_effect s old new k =
    let moved = act_move s new.channel (shown_user old) in
    let updated = λ (u : ShownUser). act_update s old new u k in
    elim (Bool-cases (old.channel == new.channel)) [
      | inl still ↦
          let e : old.channel ≡ new.channel = (nat_eq.beq_iff old.channel new.channel).0 still in
          elim (Bool-cases (user_is_noop (user_patch old new))) [
            | inl same ↦
                rw (still, same) (ap some (shown-unmoved old new e ∙ shown-unchanged old new same))
            | inr other ↦
                rw (still, other, updated (shown_user old))
                  (ap some (
                    ap (patched_user (user_patch old new)) (shown-unmoved old new e)
                    ∙ patched-shown old new))
          ]
      | inr away ↦ elim (Bool-cases (user_is_noop (user_patch old new))) [
        | inl same ↦ rw (away, same, moved) (ap some (shown-unchanged old new same))
        | inr other ↦
            rw (away, other, moved, updated (after_move old new)) (ap some (patched-shown old new))
      ]
    ]

-- It is neither added nor removed.
trailing_kept :
    (b : Bool) (s : ℕ) (old new : User)
    → filter (kept_own b) (trailing_step new (some old) s []) ≡ trailing_step new (some old) s []
unfolding trailing_step
trailing_kept b s old new = elim (Bool-cases (old.channel == new.channel)) [
  | inl still ↦ elim (Bool-cases (user_is_noop (user_patch old new))) [
    | inl same ↦ rw (still, same)
    | inr other ↦ rw (still, other)
  ]
  | inr away ↦ elim (Bool-cases (user_is_noop (user_patch old new))) [
    | inl same ↦ rw (away, same)
    | inr other ↦ rw (away, other)
  ]
]

-- What the connection sees of the plan's own operations on the user.
abbrev own_shared : ℕ → ScopeSet → Option User → Option User → List PlanOp
own_shared s see before after =
    filter_ops (own_ops (own_phases s before after) (own_gone s before after)) see

-- Spliced with the overlay's own.
abbrev own_spliced : ℕ → ScopeSet → (before after old new : Option User) → List PlanOp
own_spliced s see before after old new =
    let own = own_shared s see before after in
    filter adds own
    ++ (map remove_user (own_key s old new) ++ (own_trailing s old new ++ filter is_removal own))

-- Whatever the entries are, of which never two are there at once.
spliced_result :
    (s : ℕ) (see : ScopeSet) (old new before after : Option User)
    → ((u : User) → after ≡ some u → u.session ≡ s)
    → ((u : User) → new ≡ some u → u.session ≡ s)
    → ((u : User) → old ≡ some u → before ≡ none)
    → ((u : User) → new ≡ some u → after ≡ none)
    → let own = own_shared s see before after in
      filter adds own ++ filter is_removal own ≡ own
      → run
          (act_user s)
          (shown_option shown_user (or_from old (visible see before)))
          (own_collapsed (user_element s) (own_spliced s see before after old new))
        ≡ shown_option shown_user (or_from new (visible see after))
unfolding run filter_ops added is_removal user_step
spliced_result s see none none before after k l x y r = rw r (own_result s see before after k)
spliced_result s see none (some new) before (some after) k l x y r = let e = y new refl in cc
spliced_result s see none (some new) none none k l x y r =
    unfold trailing_step in act_add s new none (l new refl)
spliced_result s see none (some new) (some before) none k l x y r =
    unfold trailing_step in
    elim (Bool-cases (sees see before.scope)) [
      | inl v ↦
          rw (v, session_matches s new (l new refl))
            (act_add s new (some (shown_user before)) (l new refl))
      | inr v ↦ rw v (act_add s new none (l new refl))
    ]
spliced_result s see (some old) new (some before) after k l x y r = let e = x old refl in cc
spliced_result s see (some old) none none none k l x y r = act_remove s (some (shown_user old))
spliced_result s see (some old) none none (some after) k l x y r =
    elim (Bool-cases (sees see after.scope)) [
      | inl v ↦
          rw (v, session_matches s after (k after refl))
            (act_add s after (some (shown_user old)) (k after refl))
      | inr v ↦ rw v (act_remove s (some (shown_user old)))
    ]
spliced_result s see (some old) (some new) none (some after) k l x y r = let e = y new refl in cc
spliced_result s see (some old) (some new) none none k l x y r =
    all_kept (act_user s) (user_element s) (some (shown_user old))
      (trailing_step new (some old) s []) (λ b. trailing_kept b s old new)
    ∙ trailing_effect s old new (l new refl)

-- On the fast path, a client that shows what the connection saw of the first view with its old
-- overlay on top comes to show, of every user, what it sees of the second with the new overlay,
-- where an overlay has no user of its view.
pub users_spliced :
    (before after : ShardView) (see : ScopeSet) (old new : Overlay) (s : ℕ)
    → IsKeyed after.users
    → IsDistinct before.users
    → IsDistinct after.users
    → IsKeyed new.users
    → (IsDistinct old.channels × IsDistinct old.users)
    → (IsDistinct new.channels × IsDistinct new.users)
    → ((u : User) → get old.users s ≡ some u → get before.users s ≡ none)
    → ((u : User) → get new.users s ≡ some u → get after.users s ≡ none)
    → (apply_all
          (shown (compose (restrict before see) old))
          (collapse (splice (filter_ops (plan before after) see) (plan_elements old new)))).users
        s
      ≡ (shown (compose (restrict after see) new)).users s
unfolding shown
users_spliced before after see old new s k d e l f g x y =
    let shared = filter_ops (plan before after) see in
    let spliced = splice shared (plan_elements old new) in
    let view = compose (restrict before see) old in
    let st = shown_option shown_user (get view.users s) in
    let own_shared_lem =
      about-filter_ops (about s) (act_user s) (user_element s) (act_other s) (not_added s)
        (kept-about s) (plan before after) see
      ∙ ap (λ l. filter_ops l see) (plan-own s before after k d e) in
    let (additions, removals) = plan_elements-own s old new l f.1 g.1 in
    let joined = λ (own shared_own removed_own added_own : List PlanOp).
      filter adds shared_own ++ (removed_own ++ (added_own ++ filter is_removal shared_own)) in
    let own =
      filter-splice (about s) before after see (plan_elements old new)
      ∙ ap₂ (λ (own rest : List PlanOp). filter adds own ++ rest) own_shared_lem
          (ap₂ ◌++◌ removals (ap₂ ◌++◌ additions (ap (filter is_removal) own_shared_lem))) in
    let start =
      (compose_lem (restrict before see) old s f.0 f.1).1
      ∙ ap (or_from (get old.users s)) (users-restrict before see s d) in
    let finish =
      (compose_lem (restrict after see) new s g.0 g.1).1
      ∙ ap (or_from (get new.users s)) (users-restrict after see s e) in
    users-apply_all (collapse spliced) (shown view) s
    ∙ collapse_effect (about s) (act_user s) (user_element s) (act_other s) (not_added s)
        (kept-about s) spliced st
    ∙ ap₂
        (λ (st : Option ShownUser) (own : List PlanOp).
          run (act_user s) st (own_collapsed (user_element s) own))
        (ap (shown_option shown_user) start) own
    ∙ spliced_result s see (get old.users s) (get new.users s) (get before.users s)
        (get after.users s) (λ u. get-keyed after.users s u k) (λ u. get-keyed new.users s u l) x y
        (rw own_shared_lem at (own_rejoined (about s) before after see))
    ∙ sym (ap (shown_option shown_user) finish)
