-- ===== src/Shard/Build/Examples.antt =====
-- A render of a lobby, a game and a team, and what the builder refuses.
use mumble_server_runtime.Base.{
  ℕ, ◌≡◌, refl, ◌↔◌, true, false, inl, inr, none, some, List, [], ◌∷◌, arith, ok, err, ◌==◌, nat_eq,
  ==ℕ_iff, subst, sym, ap, ◌∙◌, Bool-cases,
}
use mumble_server_runtime.Base.Assoc.{Assoc, get}
use mumble_server_runtime.Base.Order.{contains, nat_order}
use mumble_server_runtime.Base.Btree.{pair_order}
use mumble_server_runtime.Shard.Ids.{new as new_ids, connection_of, synthetic}
use mumble_server_runtime.Shard.Ids.Operations.{new-IsAllocator}
use mumble_server_runtime.Shard.Routing.{resolve}
use mumble_server_runtime.Shard.Scope.{Scope, scope_eq}
use mumble_server_runtime.Shard.ScopeSet.{ScopeSet, sees}
use mumble_server_runtime.Shard.View.{Overlay, default_flags, restrict}
use mumble_server_runtime.Shard.Build.{ShardBuilder, same, into, duplicate_channel_key}
use mumble_server_runtime.Shard.Build.Builder.{root_ref, new, root, user, private}
use mumble_server_runtime.Shard.Build.Calls.{
  Call, Rendering, calls, render_root, render_channel, render_user, link, privately, join_domain,
  set_can_text, place_user, place_channel, private_calls,
}
use mumble_server_runtime.Shard.Build.Checks.{
  observed, can_see, shared_scopes, private_views, check_group, finish, rendered_of, sees_privately,
}
use mumble_server_runtime.Shard.Build.Checks.Visible.{SeesAll, IsExclusive, check_group_iff}
use mumble_server_runtime.Shard.Build.Coherent.{IsClosed}
use mumble_server_runtime.Shard.Build.Render.{opened, render-IsClosed}
use mumble_server_runtime.Shard.Build.Finish.{IsWhole, finish-IsFitting, finish-IsWhole}
use mumble_server_runtime.Shard.Build.Overlays.{IsFitting}
use mumble_server_runtime.Shard.Build.Refusals.{first_refusal}
use mumble_server_runtime.Shard.Build.Audible.{view_scopes, AllSeeOwn, finish-audible}

abbrev render : List Call
render =
    render_root "Lobby"
    ∷ render_channel 0 7 "Game" (into 7)
    ∷ render_channel 1 8 "Team" (into 2)
    ∷ link 1 2
    ∷ set_can_text 2 false
    ∷ render_user 2 (connection_of 1) "A" same
    ∷ render_user 1 (connection_of 2) "B" same
    ∷ privately 1 (place_user root_ref (synthetic 5) "Ghost" ∷ [])
    ∷ join_domain 1 (2 ∷ 1 ∷ [])
    ∷ []

abbrev rendering : Rendering
rendering = calls (opened new_ids 1 (1 ∷ 2 ∷ [])) render

abbrev game : Scope
game = record { segments = 7 ∷ 0 ∷ 0 ∷ 0 ∷ []; depth = 1 }

abbrev team : Scope
team = record { segments = 7 ∷ 2 ∷ 0 ∷ 0 ∷ []; depth = 2 }

abbrev only : Scope → ScopeSet
only scope = record { scopes = some scope ∷ none ∷ none ∷ none ∷ [] }

abbrev observations : Assoc ℕ ScopeSet
observations = (1, only team) ∷ (2, only game) ∷ []

finishes : finish rendering.builder observations ≡ ok (rendered_of rendering.builder)
unfolding calls finish
finishes = refl

render-IsClosed_example : IsClosed (calls (opened new_ids 1 (1 ∷ 2 ∷ [])) render).builder.view
render-IsClosed_example = render-IsClosed new_ids 1 (1 ∷ 2 ∷ []) render new-IsAllocator

finish-IsWhole_example : IsWhole (restrict (rendered_of rendering.builder).view (only team))
finish-IsWhole_example =
    finish-IsWhole new_ids 1 (1 ∷ 2 ∷ []) render observations (rendered_of rendering.builder)
      (only team) new-IsAllocator finishes

-- What the first connection sees privately.
abbrev ghost : Overlay
ghost = record {
  channels = [];
  users =
      (
        3,
        record {
          occupant = synthetic 5;
          session = 3;
          channel = 0;
          scope = root_ref.scope;
          name = "Ghost";
          flags = default_flags;
        },
      )
      ∷ [];
}

ghost_there : get (rendered_of rendering.builder).overlays 1 ≡ some ghost
unfolding calls get
ghost_there = refl

finish-IsFitting_example :
    IsFitting (rendered_of rendering.builder).view (observed observations 1) ghost
finish-IsFitting_example =
    finish-IsFitting rendering.builder observations (rendered_of rendering.builder) 1 ghost finishes
      ghost_there

-- The key 7 again: the refusal is kept over the calls that follow.
abbrev refused : Rendering
refused = calls rendering (render_channel 0 7 "Again" same ∷ [])

refused_reads : refused.builder.error ≡ some (duplicate_channel_key 7)
unfolding calls
refused_reads = refl

first_refusal_example :
    finish (calls refused (render_root "Other" ∷ [])).builder observations
    ≡ err (duplicate_channel_key 7)
first_refusal_example =
    first_refusal refused (render_root "Other" ∷ []) observations (duplicate_channel_key 7)
      refused_reads

scopes_read : view_scopes rendering.builder.view ≡ (1, team) ∷ (2, game) ∷ []
unfolding calls shared_scopes
scopes_read = refl

team_seen : sees (observed observations 1) team ≡ true
unfolding sees observed
team_seen = refl

game_seen : sees (observed observations 2) game ≡ true
unfolding sees observed
game_seen = refl

own_at :
    (c : ℕ) (scope : Scope)
    → get ((1, team) ∷ (2, game) ∷ []) c ≡ some scope
    → sees (observed observations c) scope ≡ true
unfolding get
own_at c scope h = elim (Bool-cases (1 == c)) [
  | inl first ↦
      let e : team ≡ scope = ground arith in
      subst (λ k. sees (observed observations k) scope ≡ true) ((==ℕ_iff 1 c).0 first)
        (subst (λ s. sees (observed observations 1) s ≡ true) e team_seen)
  | inr other ↦ elim (Bool-cases (2 == c)) [
    | inl second ↦
        let e : game ≡ scope = ground arith in
        subst (λ k. sees (observed observations k) scope ≡ true) ((==ℕ_iff 2 c).0 second)
          (subst (λ s. sees (observed observations 2) s ≡ true) e game_seen)
    | inr neither ↦ let h' = rw (other, neither) at h in cc
  ]
]

own_seen :
    AllSeeOwn
      (view_scopes rendering.builder.view)
      (private_views rendering.builder.overlays)
      observations
own_seen connection scope h =
    own_at connection scope (sym (ap (λ m. get m connection) scopes_read) ∙ h)

pair_there : contains (resolve rendering.builder.audio) (1, 2) ≡ true
unfolding calls resolve
pair_there = refl

finish-audible_example :
    can_see 2 1
      (view_scopes rendering.builder.view)
      (private_views rendering.builder.overlays)
      observations
    ≡ true
unfolding calls
finish-audible_example =
    finish-audible rendering.builder observations (rendered_of rendering.builder) 1 2 finishes
      (((refl, tt), (tt, tt)), tt) own_seen pair_there

abbrev scopes : Assoc ℕ Scope
scopes = (1, team) ∷ (2, game) ∷ []

-- Nobody is seen privately.
none_private : IsExclusive (1 ∷ 2 ∷ []) scopes [] observations
unfolding sees_privately get
none_private receiver sender h = cc

check_group_iff_example : (check_group (1 ∷ 2 ∷ []) (1 ∷ 2 ∷ []) scopes [] observations ≡ ok tt) ↔ (
    (receiver : ℕ)
    → contains (1 ∷ 2 ∷ []) receiver ≡ true
    → SeesAll (1 ∷ 2 ∷ []) scopes [] observations receiver)
check_group_iff_example =
    check_group_iff (1 ∷ 2 ∷ []) scopes [] observations (1 ∷ 2 ∷ []) ((refl, tt), (tt, tt))
      none_private (λ receiver c scope g out. cc)

-- A listener that is no member is taken off the count of its own scope: nothing is checked where one
-- member stands there, although the listener does not see it.
listener_unchecked :
    (check_group (3 ∷ []) (2 ∷ []) ((2, game) ∷ (3, game) ∷ []) [] [] ≡ ok tt)
    × (can_see 3 2 ((2, game) ∷ (3, game) ∷ []) [] [] ≡ false)
unfolding check_group can_see
listener_unchecked = (refl, refl)

-- A private channel's handle, named to a shared call.
abbrev leaking : ShardBuilder
leaking =
    private (root (new new_ids 1 []) "Lobby").0 1
      (private_calls (place_channel root_ref 9 "Hidden" ∷ []))

abbrev leaked : ShardBuilder
leaked = (user leaking (record { id = 1; scope = root_ref.scope }) (connection_of 2) "B" same).0

leak_finishes :
    (finish leaked ((1, only root_ref.scope) ∷ []) ≡ ok (rendered_of leaked))
    × (get leaked.view.channels 1 ≡ none)
unfolding finish user private private_calls root get
leak_finishes = (refl, refl)

-- The root's key may be given to another channel.
abbrev two_roots : Rendering
two_roots = calls (opened new_ids 1 []) (render_root "Lobby" ∷ render_channel 0 0 "Other" same ∷ [])

two_roots_finish : finish two_roots.builder [] ≡ ok (rendered_of two_roots.builder)
unfolding calls finish
two_roots_finish = refl
