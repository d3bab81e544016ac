-- ===== src/Shard/Journal/Examples.antt =====
-- The theorems on the journal at a short history.
use mumble_server_runtime.Base.{ℕ, ◌≡◌, refl, List, [], ◌∷◌, arith, ok}
use mumble_server_runtime.Shard.Journal.{Journal, new, push, replay}
use mumble_server_runtime.Shard.Journal.Window.{IsWindow, new-IsWindow, push-IsWindow}
use mumble_server_runtime.Shard.Journal.Replay.{replay-IsWindow}

abbrev first : List ℕ
first = 1 ∷ 2 ∷ []

abbrev second : List ℕ
second = 3 ∷ []

abbrev two : Journal ℕ
two = push (push new first) second

two-IsWindow : IsWindow (first ∷ second ∷ []) two
two-IsWindow =
    push-IsWindow (first ∷ []) (push new first) second (omega arith)
      (push-IsWindow [] new first (omega arith) new-IsWindow)

two_replays : replay two 0 5 ≡ ok (1 ∷ 2 ∷ 3 ∷ [])
unfolding push replay
two_replays = refl

replay-IsWindow_example : replay two 1 2 ≡ ok (3 ∷ [])
replay-IsWindow_example = replay-IsWindow (first ∷ second ∷ []) two 1 2 two-IsWindow
