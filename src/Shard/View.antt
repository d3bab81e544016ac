-- ===== src/Shard/View.antt =====
-- runtime/crates/shard/src/view.rs: the rendered view of a shard, and the overlay of one connection.
-- A `BTreeMap` is the list of its entries in the order of their keys.
pub mod Composed
pub mod Equality
use Prim.Native.String.{String}
use Prim.Native.Nat.{bit_and, bit_or}
use mumble_server_runtime.Base.{
  ℕ, ◌≡◌, ◌↔◌, refl, ap, Bool, true, false, List, [], ◌∷◌, arith, Eq, nat_eq, list_beq,
  list_beq_iff, bool_eq, filter, map, if◌then◌else◌, ◌&&◌, ◌==ℕ◌,
}
use mumble_server_runtime.Base.Int.{ℤ}
use mumble_server_runtime.Base.Assoc.{Assoc, insert, retain}
use mumble_server_runtime.Shard.Ids.{Occupant}
use mumble_server_runtime.Shard.Scope.{Scope}
use mumble_server_runtime.Shard.ScopeSet.{ScopeSet, sees}

pub record Channel : Type 0 where
  pub key : ℕ
  pub id : ℕ
  pub parent : ℕ
  pub scope : Scope
  pub name : String
  pub position : ℤ
  pub can_enter : Bool
  pub can_text : Bool
  pub links : List ℕ

pub record UserFlags : Type 0 where
  pub mute : Bool
  pub deaf : Bool
  pub suppress : Bool
  pub self_mute : Bool
  pub self_deaf : Bool
  pub priority_speaker : Bool
  pub recording : Bool

pub record User : Type 0 where
  pub occupant : Occupant
  pub session : ℕ
  pub channel : ℕ
  pub scope : Scope
  pub name : String
  pub flags : UserFlags

pub record ShardView : Type 0 where
  pub channels : Assoc ℕ Channel
  pub users : Assoc ℕ User

pub record Overlay : Type 0 where
  pub channels : Assoc ℕ Channel
  pub users : Assoc ℕ User

abbrev is_empty_map {ℓ} : {V : Type ℓ} → Assoc ℕ V → Bool
is_empty_map [] = true
is_empty_map (entry ∷ m) = false

-- `UserFlags::default()`
abbrev pub default_flags : UserFlags
default_flags = record {
  mute = false;
  deaf = false;
  suppress = false;
  self_mute = false;
  self_deaf = false;
  priority_speaker = false;
  recording = false;
}

-- `Overlay::default()`
abbrev pub empty_overlay : Overlay
empty_overlay = record { channels = []; users = [] }

unfoldable pub is_empty : Overlay → Bool
is_empty overlay = is_empty_map overlay.channels && is_empty_map overlay.users

-- Where a context action is offered: a set of bits.
pub record On : Type 0 where
  pub bits : ℕ

abbrev pub server : On
server = record { bits = 1 }

abbrev pub channel : On
channel = record { bits = 2 }

abbrev pub user : On
user = record { bits = 4 }

unfoldable pub and : On → On → On
and on other = record { bits = bit_or on.bits other.bits }

unfoldable pub covers : On → On → Bool
covers on place = bit_and on.bits place.bits ==ℕ place.bits

pub record Action : Type 0 where
  pub key : ℕ
  pub text : String
  pub on : On

abbrev pub Actions : Type 0
Actions = Assoc ℕ Action

abbrev pub empty : ShardView
empty = record { channels = []; users = [] }

unfoldable pub restrict : ShardView → ScopeSet → ShardView
unfolding retain
restrict view see = record {
  channels = retain (λ _ channel. sees see channel.scope) view.channels;
  users = retain (λ _ user. sees see user.scope) view.users;
}

-- `BTreeMap::extend`: the entries inserted in turn. A map that is read by key is as good in the order
-- in which the keys came.
unfoldable pub extend {ℓ} : {V : Type ℓ} → Assoc ℕ V → Assoc ℕ V → Assoc ℕ V
unfolding insert
extend m [] = m
extend m ((k, v) ∷ more) = extend (insert m k v) more

unfoldable pub compose : ShardView → Overlay → ShardView
unfolding extend
compose view overlay = record {
  channels = extend view.channels overlay.channels;
  users = extend view.users overlay.users;
}

-- The derived `PartialEq` of the flags.
abbrev flag_bits : UserFlags → List Bool
flag_bits f =
    f.mute ∷ f.deaf ∷ f.suppress ∷ f.self_mute ∷ f.self_deaf ∷ f.priority_speaker ∷ f.recording ∷ []

abbrev flags_of_bits : UserFlags → List Bool → UserFlags
flags_of_bits d (m ∷ e ∷ s ∷ sm ∷ sd ∷ p ∷ r ∷ []) = record {
  mute = m;
  deaf = e;
  suppress = s;
  self_mute = sm;
  self_deaf = sd;
  priority_speaker = p;
  recording = r;
}
flags_of_bits d _ = d

abbrev flags_beq : UserFlags → UserFlags → Bool
flags_beq a b = list_beq (flag_bits a) (flag_bits b)

pub flags_beq_iff : (a b : UserFlags) → (flags_beq a b ≡ true) ↔ (a ≡ b)
flags_beq_iff a b = (
  λ h. ap (flags_of_bits a) ((list_beq_iff (flag_bits a) (flag_bits b)).0 h),
  λ e. (list_beq_iff (flag_bits a) (flag_bits b)).1 (ap flag_bits e),
)

instance abbrev pub flags_eq : Eq UserFlags
flags_eq = record { beq = flags_beq; beq_iff = flags_beq_iff }
