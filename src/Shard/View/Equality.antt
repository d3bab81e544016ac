-- ===== src/Shard/View/Equality.antt =====
-- runtime/crates/shard/src/view.rs: the derived `PartialEq` of what a view and an overlay hold.
use mumble_server_runtime.Base.{
  ◌≡◌, ◌↔◌, Bool, true, false, ◌&&◌, Option, none, some, arith, Eq, nat_eq, bool_eq, string_eq,
  list_eq, list_beq, list_beq_iff, pair_eq, eq_self, subst, refl,
}
use mumble_server_runtime.Base.Int.{int_eq}
use mumble_server_runtime.Shard.Ids.{occupant_eq, occupant_beq_iff}
use mumble_server_runtime.Shard.Scope.{Scope, scope_eq, scope_beq_iff}
use mumble_server_runtime.Shard.ScopeSet.{ScopeSet}
use mumble_server_runtime.Shard.View.{Channel, User, flags_eq, flags_beq_iff, Overlay, Action}

abbrev channel_beq : Channel → Channel → Bool
channel_beq a b =
    nat_eq.beq a.key b.key
    && (nat_eq.beq a.id b.id
        && (nat_eq.beq a.parent b.parent
            && (scope_eq.beq a.scope b.scope
                && (string_eq.beq a.name b.name
                    && (int_eq.beq a.position b.position
                        && (bool_eq.beq a.can_enter b.can_enter
                            && (bool_eq.beq a.can_text b.can_text && list_beq a.links b.links)))))))

pub channel_beq_iff : (a b : Channel) → (channel_beq a b ≡ true) ↔ (a ≡ b)
channel_beq_iff a b = ground (
  arith,
  scope_beq_iff a.scope b.scope,
  string_eq.beq_iff a.name b.name,
  int_eq.beq_iff a.position b.position,
  bool_eq.beq_iff a.can_enter b.can_enter,
  bool_eq.beq_iff a.can_text b.can_text,
  list_beq_iff a.links b.links,
)

instance abbrev pub channel_eq : Eq Channel
channel_eq = record { beq = channel_beq; beq_iff = channel_beq_iff }

abbrev user_beq : User → User → Bool
user_beq a b =
    occupant_eq.beq a.occupant b.occupant
    && (nat_eq.beq a.session b.session
        && (nat_eq.beq a.channel b.channel
            && (scope_eq.beq a.scope b.scope
                && (string_eq.beq a.name b.name && flags_eq.beq a.flags b.flags))))

user_beq_self : (a : User) → user_beq a a ≡ true
user_beq_self a =
    rw
      (
        eq_self a.occupant,
        eq_self a.session,
        eq_self a.channel,
        eq_self a.scope,
        eq_self a.name,
        eq_self a.flags,
      )
      refl

and-true : (a b : Bool) → (a && b) ≡ true → (a ≡ true) × (b ≡ true)
and-true a b h = ground arith

user_beq-eq : (a b : User) → user_beq a b ≡ true → a ≡ b
user_beq-eq a b h =
    let (occupants, h1) = and-true _ _ h in
    let (sessions, h2) = and-true _ _ h1 in
    let (channels, h3) = and-true _ _ h2 in
    let (scopes, h4) = and-true _ _ h3 in
    let (names, flags) = and-true _ _ h4 in
    let same_occupant = (occupant_beq_iff a.occupant b.occupant).0 occupants in
    let same_session = (nat_eq.beq_iff a.session b.session).0 sessions in
    let same_channel = (nat_eq.beq_iff a.channel b.channel).0 channels in
    let same_scope = (scope_beq_iff a.scope b.scope).0 scopes in
    let same_name = (string_eq.beq_iff a.name b.name).0 names in
    let same_flags = (flags_beq_iff a.flags b.flags).0 flags in
    λ i. record {
      occupant = same_occupant i;
      session = same_session i;
      channel = same_channel i;
      scope = same_scope i;
      name = same_name i;
      flags = same_flags i;
    }

pub user_beq_iff : (a b : User) → (user_beq a b ≡ true) ↔ (a ≡ b)
user_beq_iff a b = (user_beq-eq a b, λ e. subst (λ x. user_beq a x ≡ true) e (user_beq_self a))

instance abbrev pub user_eq : Eq User
user_eq = record { beq = user_beq; beq_iff = user_beq_iff }

abbrev action_beq : Action → Action → Bool
action_beq a b =
    nat_eq.beq a.key b.key && (string_eq.beq a.text b.text && nat_eq.beq a.on.bits b.on.bits)

pub action_beq_iff : (a b : Action) → (action_beq a b ≡ true) ↔ (a ≡ b)
action_beq_iff a b = ground (arith, string_eq.beq_iff a.text b.text)

instance abbrev pub action_eq : Eq Action
action_eq = record { beq = action_beq; beq_iff = action_beq_iff }

abbrev overlay_beq : Overlay → Overlay → Bool
overlay_beq a b = list_beq a.channels b.channels && list_beq a.users b.users

pub overlay_beq_iff : (a b : Overlay) → (overlay_beq a b ≡ true) ↔ (a ≡ b)
overlay_beq_iff a b =
    ground (arith, list_beq_iff a.channels b.channels, list_beq_iff a.users b.users)

instance abbrev pub overlay_eq : Eq Overlay
overlay_eq = record { beq = overlay_beq; beq_iff = overlay_beq_iff }

abbrev slot_beq : Option Scope → Option Scope → Bool
slot_beq none none = true
slot_beq (some a) (some b) = scope_eq.beq a b
slot_beq _ _ = false

pub slot_beq_iff : (a b : Option Scope) → (slot_beq a b ≡ true) ↔ (a ≡ b)
slot_beq_iff none none = ground arith
slot_beq_iff none (some b) = ground arith
slot_beq_iff (some a) none = ground arith
slot_beq_iff (some a) (some b) = ground (arith, scope_beq_iff a b)

instance abbrev pub slot_eq : Eq (Option Scope)
slot_eq = record { beq = slot_beq; beq_iff = slot_beq_iff }

abbrev scope_set_beq : ScopeSet → ScopeSet → Bool
scope_set_beq a b = list_beq a.scopes b.scopes

pub scope_set_beq_iff : (a b : ScopeSet) → (scope_set_beq a b ≡ true) ↔ (a ≡ b)
scope_set_beq_iff a b = ground (arith, list_beq_iff a.scopes b.scopes)

instance abbrev pub scope_set_eq : Eq ScopeSet
scope_set_eq = record { beq = scope_set_beq; beq_iff = scope_set_beq_iff }
