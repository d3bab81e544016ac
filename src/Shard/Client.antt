-- ===== src/Shard/Client.antt =====
-- What the operations of a transition mean to a client: the specification that planning and
-- composing are held against. A client shows channels and users, and knows no scopes; the links of
-- a channel are a set. The messages are applied as by the client of tests/support/model.rs.
pub mod Element
pub mod Links
pub mod Users
pub mod Channels
mod Examples
use Prim.Native.String.{String}
use mathlib.Core.Bool.{false≢true}
use mumble_server_runtime.Base.{
  ℕ, Bool, true, false, not, ◌&&◌, ◌||◌, Option, none, some, List, [], ◌∷◌, ◌≡◌, inl, inr, Eq,
  Bool-cases, nat_eq, ◌==◌, if◌then◌else◌,
}
use mumble_server_runtime.Base.Int.{ℤ}
use mumble_server_runtime.Base.Assoc.{Assoc, get}
use mumble_server_runtime.Base.Order.{contains, nat_order}
use mumble_server_runtime.Shard.View.{Channel, UserFlags, User, ShardView}
use mumble_server_runtime.Shard.Plan.{
  ChannelPatch, UserPatch, PlanOp, create_channel, update_channel, add_user, move_user, update_user,
  remove_user, remove_channel, is_none, is_nil,
}

pub record ShownChannel : Type 0 where
  pub parent : ℕ
  pub name : String
  pub position : ℤ
  pub can_enter : Bool
  pub links : ℕ → Bool

pub record ShownUser : Type 0 where
  pub channel : ℕ
  pub name : String
  pub flags : UserFlags

abbrev pub shown_channel : Channel → ShownChannel
shown_channel c = record {
  parent = c.parent;
  name = c.name;
  position = c.position;
  can_enter = c.can_enter;
  links = contains c.links;
}

abbrev pub shown_user : User → ShownUser
shown_user u = record { channel = u.channel; name = u.name; flags = u.flags }

abbrev pub or_else {ℓ} : {A : Type ℓ} → Option A → A → A
or_else none a = a
or_else (some b) a = b

-- A field of a patch, put over the old value, gives the new one.
pub or_else_changed {ℓ} :
    {A : Type ℓ} ⦃e : Eq A⦄ (old new : A)
    → or_else (if old == new then none else some new) old ≡ new
or_else_changed ⦃e⦄ old new = elim (Bool-cases (e.beq old new)) [
  | inl same ↦ rw same ((e.beq_iff old new).0 same)
  | inr other ↦ rw other
]

-- A field that is left out did not change.
pub eq_of_unchanged {ℓ} :
    {A : Type ℓ} ⦃e : Eq A⦄ (old new : A)
    → is_none (if old == new then none else some new) ≡ true
    → old ≡ new
eq_of_unchanged ⦃e⦄ old new h = elim (Bool-cases (e.beq old new)) [
  | inl same ↦ (e.beq_iff old new).0 same
  | inr other ↦ absurd (false≢true (rw other at h))
]

abbrev pub patched_channel : ChannelPatch → ShownChannel → ShownChannel
patched_channel p c = record {
  parent = or_else p.parent c.parent;
  name = or_else p.name c.name;
  position = or_else p.position c.position;
  can_enter = or_else p.can_enter c.can_enter;
  links = λ x. (c.links x && not (contains p.links_removed x)) || contains p.links_added x;
}

abbrev pub patched_user : UserPatch → ShownUser → ShownUser
patched_user p u = record u { name = or_else p.name u.name; flags = or_else p.flags u.flags }

abbrev pub map_option {ℓ} : {A : Type ℓ} → (A → A) → Option A → Option A
map_option f none = none
map_option f (some a) = some (f a)

-- What an operation makes of channel `c`, as the messages of emit.rs are taken: a channel that is
-- sent anew without links keeps those it had, and the root is neither created, moved nor removed.
unfoldable pub act_channel : ℕ → Option ShownChannel → PlanOp → Option ShownChannel
act_channel c none (create_channel channel) =
    if (channel.id == c) && not (c == 0) then some (shown_channel channel) else none
act_channel c (some old) (create_channel channel) =
    if channel.id == c
    then some (record {
      parent = if c == 0 then old.parent else channel.parent;
      name = channel.name;
      position = channel.position;
      can_enter = channel.can_enter;
      links = if is_nil channel.links then old.links else contains channel.links;
    })
    else some old
act_channel c none (update_channel p) = none
act_channel c (some old) (update_channel p) =
    if p.id == c
    then some (record (patched_channel p old) {
      parent = if c == 0 then old.parent else or_else p.parent old.parent;
    })
    else some old
act_channel c st (remove_channel id) = if (id == c) && not (c == 0) then none else st
act_channel c st _ = st

-- What an operation makes of user `s`. A user that is removed is dropped, the client's own too, which
-- the official client keeps.
unfoldable pub act_user : ℕ → Option ShownUser → PlanOp → Option ShownUser
act_user s st (add_user user) = if user.session == s then some (shown_user user) else st
act_user s st (move_user session channel) =
    if session == s then map_option (λ u. record u { channel = channel }) st else st
act_user s st (update_user p) = if p.session == s then map_option (patched_user p) st else st
act_user s st (remove_user session) = if session == s then none else st
act_user s st _ = st

pub record ClientView : Type 0 where
  pub channels : ℕ → Option ShownChannel
  pub users : ℕ → Option ShownUser

unfoldable pub apply : ClientView → PlanOp → ClientView
unfolding act_channel act_user
apply v op = record {
  channels = λ c. act_channel c (v.channels c) op;
  users = λ s. act_user s (v.users s) op;
}

unfoldable pub apply_all : ClientView → List PlanOp → ClientView
unfolding apply
apply_all v [] = v
apply_all v (op ∷ ops) = apply_all (apply v op) ops

abbrev pub shown_option {ℓ κ} : {A : Type ℓ} {B : Type κ} → (A → B) → Option A → Option B
shown_option f none = none
shown_option f (some a) = some (f a)

-- The view as a client shows it.
unfoldable pub shown : ShardView → ClientView
unfolding get
shown view = record {
  channels = λ c. shown_option shown_channel (get view.channels c);
  users = λ s. shown_option shown_user (get view.users s);
}
