-- ===== src/Shard/ScopeSet/Examples.antt =====
-- The theorems on scopes at concrete observations.
use mumble_server_runtime.Base.{ℕ, ◌≡◌, refl, ◌↔◌, true, none, some, List, [], ◌∷◌, ok}
use mumble_server_runtime.Base.Order.{contains}
use mumble_server_runtime.Shard.Scope.{Scope, scope_order, child, is_prefix_of}
use mumble_server_runtime.Shard.ScopeSet.{ScopeSet, new, sees}
use mumble_server_runtime.Shard.ScopeSet.Canonical.{new-eq_iff, sees-prefix}

-- `/7`, `/7/2` and `/8`
abbrev game : Scope
game = record { segments = 7 ∷ 0 ∷ 0 ∷ 0 ∷ []; depth = 1 }

abbrev team : Scope
team = record { segments = 7 ∷ 2 ∷ 0 ∷ 0 ∷ []; depth = 2 }

abbrev other : Scope
other = record { segments = 8 ∷ 0 ∷ 0 ∷ 0 ∷ []; depth = 1 }

team-child : child game 2 ≡ some team
unfolding child
team-child = refl

abbrev both : ScopeSet
both = record { scopes = some team ∷ some other ∷ none ∷ none ∷ [] }

new-both : new (other ∷ team ∷ other ∷ []) ≡ ok both
unfolding new
new-both = refl

new-both_again : new (team ∷ other ∷ []) ≡ ok both
unfolding new
new-both_again = refl

abbrev at : ℕ → Scope
at n = record { segments = n ∷ 0 ∷ 0 ∷ 0 ∷ []; depth = 1 }

abbrev five : List Scope
five = at 1 ∷ at 2 ∷ at 3 ∷ at 4 ∷ at 5 ∷ []

sees-prefix_example : sees both game ≡ true
unfolding sees is_prefix_of
sees-prefix_example = sees-prefix both game team refl refl

new-eq_iff_example :
    (both ≡ both)
    ↔ ((s : Scope) → contains (other ∷ team ∷ other ∷ []) s ≡ contains (team ∷ other ∷ []) s)
new-eq_iff_example =
    new-eq_iff (other ∷ team ∷ other ∷ []) (team ∷ other ∷ []) both both new-both new-both_again
