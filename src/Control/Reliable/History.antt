-- ===== src/Control/Reliable/History.antt =====
-- The results of commands over any sequence of calls.
use mumble_server_runtime.Base.{ℕ, List, [], ◌∷◌}
use mumble_server_runtime.Control.Reliable.{
  ReliableCommands, attach_session, complete, remove_session,
}
use mumble_server_runtime.Control.Reliable.Replay.{
  IsCommands, attach_session-IsCommands, complete-IsCommands, remove_session-IsCommands,
}

-- The methods that take `&mut self`, with their arguments.
pub data CommandCall (Output : Type 0) : Type 0 where
  attaches_session : ℕ → CommandCall Output
  completes : ℕ → List ℕ → Output → CommandCall Output
  removes_session : ℕ → CommandCall Output

module _ {Output : Type 0} where
  abbrev pub call_commands : ReliableCommands Output → CommandCall Output → ReliableCommands Output
  call_commands r (attaches_session session_id) = attach_session r session_id
  call_commands r (completes session_id request_id result) =
      (complete r session_id request_id result).0
  call_commands r (removes_session session_id) = remove_session r session_id

  unfoldable pub run_commands :
      ReliableCommands Output → List (CommandCall Output) → ReliableCommands Output
  run_commands r [] = r
  run_commands r (c ∷ calls) = run_commands (call_commands r c) calls

  call_commands-IsCommands :
      (r : ReliableCommands Output) (c : CommandCall Output)
      → IsCommands r
      → IsCommands (call_commands r c)
  call_commands-IsCommands r (attaches_session session_id) h =
      attach_session-IsCommands r session_id h
  call_commands-IsCommands r (completes session_id request_id result) h =
      complete-IsCommands r session_id request_id result h
  call_commands-IsCommands r (removes_session session_id) h =
      remove_session-IsCommands r session_id h

  -- Whatever is called, every session's log stays within the maximum, with exactly one place in its
  -- order for each result that it holds.
  pub run_commands-IsCommands :
      (r : ReliableCommands Output) (calls : List (CommandCall Output))
      → IsCommands r
      → IsCommands (run_commands r calls)
  unfolding run_commands
  run_commands-IsCommands r [] h = h
  run_commands-IsCommands r (c ∷ calls) h =
      run_commands-IsCommands (call_commands r c) calls (call_commands-IsCommands r c h)
