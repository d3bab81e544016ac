-- ===== src/Shard/ScopeSet.antt =====
-- runtime/crates/shard/src/scope.rs: `ScopeSet`, what one connection observes.
pub mod Canonical
mod Examples
use mumble_server_runtime.Base.{
  ℕ, Bool, Option, none, some, List, [], ◌∷◌, Result, ok, err, ltb, any, length, replicate,
  if◌then◌else◌,
}
use mumble_server_runtime.Base.Order.{sort, dedup}
use mumble_server_runtime.Shard.Scope.{Scope, scope_order, comparable}

abbrev pub max_observed : ℕ
max_observed = 4

pub record TooManyScopes : Type 0 where
  pub requested : ℕ

-- The array of `max_observed` slots.
pub record ScopeSet : Type 0 where
  pub scopes : List (Option Scope)

abbrev pub empty_set : ScopeSet
empty_set = record { scopes = replicate max_observed none }

-- `slots.iter_mut().zip(sorted)`: the surplus of either side is left alone.
fill : List (Option Scope) → List Scope → List (Option Scope)
fill [] scopes = []
fill slots [] = slots
fill (slot ∷ slots) (scope ∷ scopes) = some scope ∷ fill slots scopes

unfoldable pub new : List Scope → Result TooManyScopes ScopeSet
unfolding sort dedup fill
new scopes =
    let sorted = dedup (sort scopes) in
    if ltb max_observed (length sorted)
    then err (record { requested = length sorted })
    else ok (record { scopes = fill empty_set.scopes sorted })

flatten : List (Option Scope) → List Scope
flatten [] = []
flatten (none ∷ slots) = flatten slots
flatten (some scope ∷ slots) = scope ∷ flatten slots

unfoldable pub iter : ScopeSet → List Scope
unfolding flatten
iter set = flatten set.scopes

unfoldable pub sees : ScopeSet → Scope → Bool
unfolding flatten comparable
sees set element = any (λ observed. comparable element observed) (flatten set.scopes)

all_none : List (Option Scope) → Bool
all_none [] = Bool.true
all_none (none ∷ slots) = all_none slots
all_none (some scope ∷ slots) = Bool.false

unfoldable pub is_empty : ScopeSet → Bool
unfolding all_none
is_empty set = all_none set.scopes
