-- ===== src/Shard/Scope/Examples.antt =====
-- The theorems on paths at concrete scopes.
use mumble_server_runtime.Base.{◌≡◌, refl, some, [], ◌∷◌}
use mumble_server_runtime.Shard.Scope.{Scope, root, child}
use mumble_server_runtime.Shard.Scope.Paths.{IsScope, IsScope-root, child-IsScope}

abbrev game : Scope
game = record { segments = 7 ∷ 0 ∷ 0 ∷ 0 ∷ []; depth = 1 }

root-game : child root 7 ≡ some game
unfolding child
root-game = refl

game-IsScope : IsScope game
game-IsScope = child-IsScope root 7 game IsScope-root root-game
