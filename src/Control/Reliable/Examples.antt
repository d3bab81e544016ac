-- ===== src/Control/Reliable/Examples.antt =====
-- A log that holds two results.
use mumble_server_runtime.Base.{
  ℕ, ◌≡◌, refl, false, none, some, List, [], ◌∷◌, ok, arith, nat_eq, ◌==◌, ◌≤◌,
}
use mumble_server_runtime.Control.Reliable.{ReliableCommands, new, attach_session, replay, complete}
use mumble_server_runtime.Control.Reliable.History.{
  CommandCall, attaches_session, completes, removes_session, run_commands, run_commands-IsCommands,
}
use mumble_server_runtime.Control.Reliable.Replay.{
  IsCommands, new-IsCommands, attach_session-IsCommands, complete-IsCommands, replay-complete,
}

abbrev attached : ReliableCommands ℕ
attached = attach_session (new 2) 1

abbrev full : ReliableCommands ℕ
full = (complete (complete attached 1 (1 ∷ []) 10).0 1 (2 ∷ []) 20).0

full-IsCommands : IsCommands full
full-IsCommands = complete-IsCommands (complete attached 1 (1 ∷ []) 10).0 1 (2 ∷ []) 20 (
    complete-IsCommands attached 1 (1 ∷ []) 10
      (attach_session-IsCommands (new 2) 1 (new-IsCommands 2)))

-- The oldest result makes room for a third.
oldest_gone : replay (complete full 1 (3 ∷ []) 30).0 1 (1 ∷ []) ≡ none
unfolding new attach_session complete replay
oldest_gone = refl

third_taken : (complete full 1 (3 ∷ []) 30).1 ≡ ok tt
unfolding new attach_session complete
third_taken = refl

room : 1 ≤ full.maximum_completed_per_session
unfolding new attach_session complete
room = omega arith

abbrev calls : List (CommandCall ℕ)
calls = completes 1 (3 ∷ []) 30 ∷ attaches_session 2 ∷ removes_session 1 ∷ []

run_commands-IsCommands_example : IsCommands (run_commands full calls)
run_commands-IsCommands_example = run_commands-IsCommands full calls full-IsCommands

replay-complete_example :
    let after = (complete full 1 (3 ∷ []) 30).0 in
    (replay after 1 (3 ∷ []) ≡ some 30)
    × ((t : ℕ) (j : List ℕ) → (1 == t) ≡ false → replay after t j ≡ replay full t j)
replay-complete_example = replay-complete full 1 (3 ∷ []) 30 full-IsCommands room third_taken
