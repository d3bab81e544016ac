-- ===== src/Shard/Build/Checks.antt =====
-- runtime/crates/shard/src/build.rs: the closing checks and `finish`. What each connection observes
-- is a map, and a connection that is not in it observes nothing.

pub mod Groups
pub mod Passed
pub mod Visible
use mumble_server_runtime.Base.{
  ℕ, suc, ◌-◌, Bool, true, false, not, ◌&&◌, Option, none, some, List, [], ◌∷◌, ◌++◌, Result, ok,
  err, ltb, ◌==ℕ◌, ◌==◌, nat_eq, if◌then◌else◌,
}
use mumble_server_runtime.Base.Fallible.{◌>>=◌, ◌>>◌}
use mumble_server_runtime.Base.Assoc.{Assoc, get, keys, values}
use mumble_server_runtime.Base.Order.{nat_order, contains, set_insert}
use mumble_server_runtime.Base.Btree.{btree_insert}
use mumble_server_runtime.Shard.Ids.{connection}
use mumble_server_runtime.Shard.Routing.{AudioRelation, listening_to}
use mumble_server_runtime.Shard.Scope.{Scope, scope_eq, scope_order}
use mumble_server_runtime.Shard.ScopeSet.{ScopeSet, empty_set, sees}
use mumble_server_runtime.Shard.View.{ShardView, Overlay, Channel, User}
use mumble_server_runtime.Shard.Build.{
  BuildError, Rendered, ShardBuilder, missing_root, shared_and_private_user,
  shared_and_private_channel, overlay_channel_missing, overlay_channel_invisible,
  receiver_cannot_see_sender,
}

abbrev pub Check : Type 0
Check = Result BuildError (Unit {0})

unfoldable pub contains_key {ℓ} : {V : Type ℓ} → Assoc ℕ V → ℕ → Bool
unfolding get
contains_key m k = elim (get m k) [ none ↦ false | some v ↦ true ]

-- `keys.find(|key| map.contains_key(key))`
unfoldable pub find_key {ℓ} : {V : Type ℓ} → Assoc ℕ V → List ℕ → Option ℕ
unfolding contains_key
find_key m [] = none
find_key m (k ∷ ks) = let later = find_key m ks in if contains_key m k then some k else later

unfoldable pub disjoint_from : ShardView → ℕ → Overlay → Check
unfolding find_key
disjoint_from view connection overlay = elim (find_key view.users (keys overlay.users)) [
  | some session ↦ err (shared_and_private_user session connection)
  | none ↦ elim (find_key view.channels (keys overlay.channels)) [
    | some channel ↦ err (shared_and_private_channel channel connection)
    | none ↦ ok tt
  ]
]

unfoldable pub check_shared_xor_private : ShardView → Assoc ℕ Overlay → Check
unfolding disjoint_from
check_shared_xor_private view [] = ok tt
check_shared_xor_private view ((connection, overlay) ∷ overlays) =
    disjoint_from view connection overlay >> check_shared_xor_private view overlays

-- `observations.get(&connection).copied().unwrap_or(ScopeSet::NONE)`
unfoldable pub observed : Assoc ℕ ScopeSet → ℕ → ScopeSet
unfolding get
observed observations connection = elim (get observations connection) [
  | none ↦ empty_set
  | some see ↦ see
]

-- The channel that an overlay's element stands in or under.
unfoldable pub check_reference : ShardView → Overlay → ℕ → ScopeSet → ℕ → Check
unfolding contains_key get sees
check_reference view overlay connection see id =
    if contains_key overlay.channels id then ok tt else elim (get view.channels id) [
      | none ↦ err (overlay_channel_missing connection id)
      | some channel ↦
          if not (sees see channel.scope)
          then err (overlay_channel_invisible connection id)
          else ok tt
    ]

unfoldable pub check_users : ShardView → Overlay → ℕ → ScopeSet → List User → Check
unfolding check_reference
check_users view overlay connection see [] = ok tt
check_users view overlay connection see (user ∷ users) =
    check_reference view overlay connection see user.channel
    >> check_users view overlay connection see users

unfoldable pub check_channels : ShardView → Overlay → ℕ → ScopeSet → List Channel → Check
unfolding check_reference
check_channels view overlay connection see [] = ok tt
check_channels view overlay connection see (channel ∷ channels) =
    check_reference view overlay connection see channel.parent
    >> check_channels view overlay connection see channels

unfoldable pub check_overlay_references : ShardView → Assoc ℕ Overlay → Assoc ℕ ScopeSet → Check
unfolding check_users check_channels observed
check_overlay_references view [] observations = ok tt
check_overlay_references view ((connection, overlay) ∷ overlays) observations =
    let see = observed observations connection in
    check_users view overlay connection see (values overlay.users)
    >> check_channels view overlay connection see (values overlay.channels)
    >> check_overlay_references view overlays observations

-- `filter_map(|user| user.occupant.connection().map(|c| (c, user.scope))).collect()`
unfoldable pub shared_scopes : Assoc ℕ Scope → List User → Assoc ℕ Scope
unfolding connection btree_insert
shared_scopes m [] = m
shared_scopes m (user ∷ users) = elim (connection user.occupant) [
  | none ↦ shared_scopes m users
  | some c ↦ shared_scopes (btree_insert m c user.scope) users
]

unfoldable pub visible_connections : List ℕ → List User → List ℕ
unfolding connection set_insert
visible_connections set [] = set
visible_connections set (user ∷ users) = elim (connection user.occupant) [
  | none ↦ visible_connections set users
  | some c ↦ visible_connections (set_insert c set) users
]

-- Who each connection can see privately.
unfoldable pub private_views : Assoc ℕ Overlay → Assoc ℕ (List ℕ)
unfolding visible_connections
private_views [] = []
private_views ((connection, overlay) ∷ overlays) =
    (connection, visible_connections [] (values overlay.users)) ∷ private_views overlays

-- `privately.get(&receiver).is_some_and(|visible| visible.contains(sender))`
unfoldable pub sees_privately : Assoc ℕ (List ℕ) → ℕ → ℕ → Bool
unfolding get
sees_privately privately receiver sender = elim (get privately receiver) [
  | none ↦ false
  | some visible ↦ contains visible sender
]

unfoldable pub can_see : ℕ → ℕ → Assoc ℕ Scope → Assoc ℕ (List ℕ) → Assoc ℕ ScopeSet → Bool
unfolding sees_privately get observed sees
can_see receiver sender shared_scope privately observations =
    if sees_privately privately receiver sender then true else elim (get shared_scope sender) [
      | none ↦ false
      | some scope ↦ sees (observed observations receiver) scope
    ]

abbrev pub or_zero : Option ℕ → ℕ
or_zero none = 0
or_zero (some count) = count

-- `*per_scope.entry(*scope).or_default() += 1`
unfoldable pub count_at : Assoc Scope ℕ → Scope → Assoc Scope ℕ
unfolding get btree_insert
count_at per_scope scope = btree_insert per_scope scope (suc (or_zero (get per_scope scope)))

-- The senders by the scope they occupy, and those that the shared view does not carry.
unfoldable pub grouped : Assoc Scope ℕ → List ℕ → Assoc ℕ Scope → List ℕ → Assoc Scope ℕ × List ℕ
unfolding count_at get
grouped per_scope hidden shared_scope [] = (per_scope, hidden)
grouped per_scope hidden shared_scope (sender ∷ senders) = elim (get shared_scope sender) [
  | some scope ↦ grouped (count_at per_scope scope) hidden shared_scope senders
  | none ↦ grouped per_scope (hidden ++ sender ∷ []) shared_scope senders
]

abbrev pub is_at : Option Scope → Scope → Bool
is_at none scope = false
is_at (some own) scope = own == scope

-- A sender at the scope other than the receiver, for the error.
unfoldable pub representative : List ℕ → Assoc ℕ Scope → Scope → ℕ → ℕ
unfolding get
representative [] shared_scope scope receiver = receiver
representative (sender ∷ senders) shared_scope scope receiver =
    let later = representative senders shared_scope scope receiver in
    if not (sender == receiver) && is_at (get shared_scope sender) scope then sender else later

-- What is left of the count once the receiver's own presence is taken off.
unfoldable pub others_at : Option Scope → Scope → ℕ → ℕ
others_at own scope count = if is_at own scope then count - 1 else count

unfoldable pub check_scopes :
    List ℕ → Assoc ℕ Scope → ℕ → ScopeSet → Option Scope → Assoc Scope ℕ → Check
unfolding others_at sees representative
check_scopes senders shared_scope receiver see own [] = ok tt
check_scopes senders shared_scope receiver see own ((scope, count) ∷ per_scope) =
    let rest = check_scopes senders shared_scope receiver see own per_scope in
    if ltb 0 (others_at own scope count) && not (sees see scope)
    then err
        (receiver_cannot_see_sender (representative senders shared_scope scope receiver) receiver)
    else rest

unfoldable pub check_hidden : Assoc ℕ (List ℕ) → ℕ → List ℕ → Check
unfolding sees_privately
check_hidden privately receiver [] = ok tt
check_hidden privately receiver (sender ∷ hidden) =
    let rest = check_hidden privately receiver hidden in
    if not (sender == receiver) && not (sees_privately privately receiver sender)
    then err (receiver_cannot_see_sender sender receiver)
    else rest

unfoldable pub check_receivers :
    List ℕ
    → List ℕ
    → Assoc ℕ Scope
    → Assoc ℕ (List ℕ)
    → Assoc ℕ ScopeSet
    → Assoc Scope ℕ × List ℕ
    → Check
unfolding check_scopes check_hidden observed get
check_receivers [] senders shared_scope privately observations groups = ok tt
check_receivers (receiver ∷ receivers) senders shared_scope privately observations groups =
    check_scopes senders shared_scope receiver (observed observations receiver)
      (get shared_scope receiver) groups.0
    >> check_hidden privately receiver groups.1
    >> check_receivers receivers senders shared_scope privately observations groups

unfoldable pub check_group :
    List ℕ → List ℕ → Assoc ℕ Scope → Assoc ℕ (List ℕ) → Assoc ℕ ScopeSet → Check
unfolding check_receivers grouped
check_group receivers senders shared_scope privately observations =
    check_receivers receivers senders shared_scope privately observations
      (grouped [] [] shared_scope senders)

module _ (shared_scope : Assoc ℕ Scope) (privately : Assoc ℕ (List ℕ))
    (observations : Assoc ℕ ScopeSet) where
  unfoldable pub check_domains : Assoc ℕ (List ℕ) → Check
  unfolding check_group
  check_domains [] = ok tt
  check_domains ((domain, members) ∷ domains) =
      check_group members members shared_scope privately observations >> check_domains domains

  unfoldable pub check_listeners : List (ℕ × List ℕ) → Check
  unfolding check_group
  check_listeners [] = ok tt
  check_listeners ((listener, members) ∷ listeners) =
      check_group (listener ∷ []) members shared_scope privately observations
      >> check_listeners listeners

  unfoldable pub check_edges : List (ℕ × ℕ) → Check
  unfolding can_see
  check_edges [] = ok tt
  check_edges ((sender, receiver) ∷ edges) =
      let rest = check_edges edges in
      if not (can_see receiver sender shared_scope privately observations)
      then err (receiver_cannot_see_sender sender receiver)
      else rest

unfoldable pub check_receivers_see_senders :
    ShardView → Assoc ℕ Overlay → AudioRelation → Assoc ℕ ScopeSet → Check
unfolding shared_scopes private_views check_domains check_listeners check_edges listening_to
check_receivers_see_senders view overlays audio observations =
    let shared_scope = shared_scopes [] (values view.users) in
    let privately = private_views overlays in
    check_domains shared_scope privately observations audio.domains
    >> check_listeners shared_scope privately observations
        (listening_to audio.domains audio.listeners)
    >> check_edges shared_scope privately observations audio.edges

abbrev pub rendered_of : ShardBuilder → Rendered
rendered_of b = record {
  view = b.view;
  overlays = b.overlays;
  actions = b.actions;
  audio = b.audio;
}

unfoldable pub finish : ShardBuilder → Assoc ℕ ScopeSet → Result BuildError Rendered
unfolding check_shared_xor_private check_overlay_references check_receivers_see_senders
finish b observations = elim b.error [
  | some error ↦ err error
  | none ↦
      if not b.rooted
      then err missing_root
      else check_shared_xor_private b.view b.overlays
        >> check_overlay_references b.view b.overlays observations
        >> check_receivers_see_senders b.view b.overlays b.audio observations
        >> ok (rendered_of b)
]
