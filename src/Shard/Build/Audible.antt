-- ===== src/Shard/Build/Audible.antt =====
-- The audio of a finished render, and who can see whom.
use mumble_server_runtime.Base.{
  ℕ, ◌≡◌, subst, true, inl, inr, some, List, [], ◌∷◌, arith, ok, All, ◌==◌, nat_eq, Bool-cases,
  Option-cases,
}
use mumble_server_runtime.Base.Fallible.{◌>>◌}
use mumble_server_runtime.Base.Assoc.{Assoc, get, values}
use mumble_server_runtime.Base.Order.{nat_order, contains, IsAscending}
use mumble_server_runtime.Base.Btree.{pair_order, pair_cmp-eq}
use mumble_server_runtime.Shard.Routing.{listening_to, resolve}
use mumble_server_runtime.Shard.Routing.Resolved.{InDomains, InListeners, resolve-cases, IsRelation}
use mumble_server_runtime.Shard.Scope.{Scope}
use mumble_server_runtime.Shard.ScopeSet.{ScopeSet, sees}
use mumble_server_runtime.Shard.View.{ShardView}
use mumble_server_runtime.Shard.Build.{ShardBuilder, Rendered}
use mumble_server_runtime.Shard.Build.Checks.{
  observed, shared_scopes, private_views, can_see, check_group, check_domains, check_listeners,
  check_edges, check_receivers_see_senders, finish,
}
use mumble_server_runtime.Shard.Build.Checks.Passed.{then-ok}
use mumble_server_runtime.Shard.Build.Checks.Visible.{check_group-ok}
use mumble_server_runtime.Shard.Build.Finish.{finish-IsFinished}

module _ (shared_scope : Assoc ℕ Scope) (privately : Assoc ℕ (List ℕ))
    (observations : Assoc ℕ ScopeSet) where
  -- Every connection that is rendered sees the scope its own user occupies.
  abbrev pub AllSeeOwn : Type 0
  AllSeeOwn =
      (connection : ℕ) (scope : Scope)
      → get shared_scope connection ≡ some scope
      → sees (observed observations connection) scope ≡ true

  abbrev pub Sees : ℕ → ℕ → Type 0
  Sees receiver sender = can_see receiver sender shared_scope privately observations ≡ true

  domains-seen :
      (domains : Assoc ℕ (List ℕ)) (s r : ℕ)
      → All (λ (d : ℕ × List ℕ). IsAscending d.1) domains
      → check_domains shared_scope privately observations domains ≡ ok tt
      → InDomains domains s r
      → Sees r s
  unfolding check_domains
  domains-seen [] s r a h i = absurd i
  domains-seen ((domain, members) ∷ domains) s r a h (inr later) =
      let (here, rest) =
        then-ok (check_group members members shared_scope privately observations) _ tt h in
      domains-seen domains s r a.1 rest later
  domains-seen ((domain, members) ∷ domains) s r a h (inl (x, y, n)) =
      let (here, rest) =
        then-ok (check_group members members shared_scope privately observations) _ tt h in
      check_group-ok members shared_scope privately observations members a.0 (λ k c scope g out. cc)
        here r y s x n

  listeners-seen :
      (listeners : List (ℕ × List ℕ)) (s r : ℕ)
      → All (λ (d : ℕ × List ℕ). IsAscending d.1) listeners
      → AllSeeOwn
      → check_listeners shared_scope privately observations listeners ≡ ok tt
      → InListeners listeners s r
      → Sees r s
  unfolding check_listeners
  listeners-seen [] s r a own h i = absurd i
  listeners-seen ((listener, members) ∷ listeners) s r a own h (inr later) =
      let (here, rest) =
        then-ok (check_group (listener ∷ []) members shared_scope privately observations) _ tt h in
      listeners-seen listeners s r a.1 own rest later
  listeners-seen ((listener, members) ∷ listeners) s r a own h (inl (x, y, n)) =
      let (here, rest) =
        then-ok (check_group (listener ∷ []) members shared_scope privately observations) _ tt h in
      check_group-ok members shared_scope privately observations (listener ∷ []) a.0
        (λ k c scope g out. own k scope g) here r (ground arith) s x n

  edges-seen :
      (edges : List (ℕ × ℕ)) (s r : ℕ)
      → check_edges shared_scope privately observations edges ≡ ok tt
      → contains edges (s, r) ≡ true
      → Sees r s
  unfolding check_edges
  edges-seen [] s r h c = cc
  edges-seen ((a, b) ∷ edges) s r h c =
      elim (Bool-cases (can_see b a shared_scope privately observations)) [
        | inr blind ↦ let h' = rw (blind, check_edges) at h in cc
        | inl seen ↦
            let h' = rw (seen, check_edges) at h in
            elim (Bool-cases (contains edges (s, r))) [
              | inl later ↦ edges-seen edges s r h' later
              | inr absent ↦
                  let e : (a, b) ≡ (s, r) = ground (arith, pair_cmp-eq (a, b) (s, r)) in
                  subst (λ (p : ℕ × ℕ). Sees p.1 p.0) e seen
            ]
      ]

get-IsAscending :
    (m : Assoc ℕ (List ℕ)) (domain : ℕ) (members : List ℕ)
    → get m domain ≡ some members
    → All (λ (d : ℕ × List ℕ). IsAscending d.1) m
    → IsAscending members
unfolding get
get-IsAscending [] domain members g a = cc
get-IsAscending ((d, set) ∷ m) domain members g a = elim (Bool-cases (d == domain)) [
  | inl same ↦ let e : set ≡ members = ground arith in subst IsAscending e a.0
  | inr apart ↦ get-IsAscending m domain members (ground arith) a.1
]

listening-All :
    (domains : Assoc ℕ (List ℕ)) (listeners : List (ℕ × ℕ))
    → All (λ (d : ℕ × List ℕ). IsAscending d.1) domains
    → All (λ (d : ℕ × List ℕ). IsAscending d.1) (listening_to domains listeners)
unfolding listening_to
listening-All domains [] a = tt
listening-All domains ((listener, domain) ∷ listeners) a =
    let rest = listening-All domains listeners a in
    elim (Option-cases (get domains domain)) [
      | inl absent ↦ rw (absent, listening_to) rest
      | inr (members, there) ↦
          rw (there, listening_to) (get-IsAscending domains domain members there a, rest)
    ]

abbrev pub view_scopes : ShardView → Assoc ℕ Scope
view_scopes view = shared_scopes [] (values view.users)

-- In a finished render no voice is sent to a client that would discard it: of every pair that the
-- declared relation resolves to, the receiver can see the sender, in the view or privately. The
-- members of each domain are a set, and every connection sees the scope that its own user occupies.
pub finish-audible :
    (b : ShardBuilder) (observations : Assoc ℕ ScopeSet) (rendered : Rendered) (s r : ℕ)
    → finish b observations ≡ ok rendered
    → IsRelation b.audio
    → AllSeeOwn (view_scopes b.view) (private_views b.overlays) observations
    → contains (resolve b.audio) (s, r) ≡ true
    → can_see r s (view_scopes b.view) (private_views b.overlays) observations ≡ true
unfolding check_receivers_see_senders
finish-audible b observations rendered s r h a own i =
    let scopes = view_scopes b.view in
    let privately = private_views b.overlays in
    let domains = check_domains scopes privately observations b.audio.domains in
    let listening = listening_to b.audio.domains b.audio.listeners in
    let listeners = check_listeners scopes privately observations listening in
    let edges = check_edges scopes privately observations b.audio.edges in
    let passed = (finish-IsFinished b observations rendered h).audible in
    let (first, third) = then-ok (domains >> listeners) edges tt passed in
    let (one, two) = then-ok domains listeners tt first in
    elim (resolve-cases b.audio s r i) [
      | inl edge ↦ edges-seen scopes privately observations b.audio.edges s r third edge
      | inr (inl domain) ↦
          domains-seen scopes privately observations b.audio.domains s r a one domain
      | inr (inr listener) ↦
          listeners-seen scopes privately observations listening s r
            (listening-All b.audio.domains b.audio.listeners a) own two listener
    ]
