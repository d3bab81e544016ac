-- ===== src/Shard/Turn/Presence.antt =====
-- runtime/crates/shard/src/shard.rs: what a turn reads off a render: what changed, the keys it retains,
-- when its sessions appeared, and the presence that the audio plane goes by.
use mumble_server_runtime.Base.{
  ℕ, Bool, true, false, not, ◌&&◌, Option, none, some, List, [], ◌∷◌, Eq, ◌==◌, nat_eq, pair_eq,
  list_eq, list_beq, if◌then◌else◌,
}
use mumble_server_runtime.Base.Assoc.{Assoc, values}
use mumble_server_runtime.Base.Order.{nat_order, set_insert}
use mumble_server_runtime.Base.Btree.{btree_insert}
use mumble_server_runtime.Shard.Ids.{connection, connection_of, occupant_eq}
use mumble_server_runtime.Shard.View.{Channel, User, Overlay, Actions}
use mumble_server_runtime.Shard.View.Equality.{overlay_eq, action_eq, scope_set_eq}
use mumble_server_runtime.Shard.Routing.{Silence, AudioRelation, record_flags}
use mumble_server_runtime.Shard.Build.Checks.{contains_key}

-- `fresh != sent`, where an absent one counts as empty.
abbrev pub differs {ℓ} : {V : Type ℓ} ⦃e : Eq V⦄ → (V → Bool) → Option V → Option V → Bool
differs ⦃e⦄ empty (some fresh) (some sent) = not (e.beq fresh sent)
differs empty (some fresh) none = not (empty fresh)
differs empty none (some sent) = not (empty sent)
differs empty none none = false

abbrev pub no_actions : Actions → Bool
no_actions [] = true
no_actions (action ∷ actions) = false

-- The keys that the render retains, without the root's.
unfoldable pub retained_keys : List ℕ → List Channel → List ℕ
unfolding set_insert
retained_keys set [] = set
retained_keys set (channel ∷ channels) =
    retained_keys (if channel.id == 0 then set else set_insert channel.key set) channels

unfoldable pub retained_overlays : List ℕ → Assoc ℕ Overlay → List ℕ
unfolding retained_keys
retained_overlays set [] = set
retained_overlays set ((connection, overlay) ∷ overlays) =
    retained_overlays (retained_keys set (values overlay.channels)) overlays

-- Sessions that have just appeared are dated to the version.
unfoldable pub date_sessions : Assoc ℕ ℕ → ℕ → List ℕ → Assoc ℕ ℕ × Bool
unfolding contains_key btree_insert
date_sessions since version [] = (since, false)
date_sessions since version (session ∷ sessions) =
    if contains_key since session
    then date_sessions since version sessions
    else (let (dated, _) = date_sessions (btree_insert since session version) version sessions in
        (dated, true))

-- The sessions and the silence of the shared users.
unfoldable pub shared_presence : Assoc ℕ ℕ → Silence → List User → Assoc ℕ ℕ × Silence
unfolding connection record_flags btree_insert
shared_presence session_of silence [] = (session_of, silence)
shared_presence session_of silence (user ∷ users) =
    let recorded = record_flags silence user.session user.flags in
    elim (connection user.occupant) [
      | none ↦ shared_presence session_of recorded users
      | some c ↦ shared_presence (btree_insert session_of c user.session) recorded users
    ]

unfoldable pub own_user : ℕ → List User → Option User
own_user c [] = none
own_user c (user ∷ users) =
    let later = own_user c users in if user.occupant == connection_of c then some user else later

-- A connection that only its own overlay shows takes part in audio all the same.
unfoldable pub private_presence : Assoc ℕ ℕ → Silence → Assoc ℕ Overlay → Assoc ℕ ℕ × Silence
unfolding contains_key own_user record_flags btree_insert
private_presence session_of silence [] = (session_of, silence)
private_presence session_of silence ((c, overlay) ∷ overlays) =
    let skipped = private_presence session_of silence overlays in
    if contains_key session_of c then skipped else elim (own_user c (values overlay.users)) [
      | none ↦ skipped
      | some user ↦
          private_presence (btree_insert session_of c user.session)
            (record_flags silence user.session user.flags) overlays
    ]

abbrev pub relation_beq : AudioRelation → AudioRelation → Bool
relation_beq a b =
    list_beq a.domains b.domains && (list_beq a.listeners b.listeners && list_beq a.edges b.edges)

abbrev pub silence_beq : Silence → Silence → Bool
silence_beq a b = list_beq a.muted b.muted && list_beq a.deafened b.deafened
