-- ===== src/Control/Reliable.antt =====
-- control/coordination/rust/src/reliable.rs: the results of completed commands, per session, so that
-- a repeated request gets its first answer. A request id is a list of bytes.
pub mod Log
pub mod Replay
pub mod History
mod Examples
use mumble_server_runtime.Base.{
  ℕ, Bool, true, false, Option, none, some, List, [], ◌∷◌, ◌++◌, Result, ok, err, ltb, length,
  nat_eq, list_eq, if◌then◌else◌,
}
use mumble_server_runtime.Base.Assoc.{Assoc, get, insert, remove}

pub data ReliableError : Type 0 where
  missing_session : ℕ → ReliableError
  empty_request_id : ReliableError

abbrev pub is_some {ℓ} : {A : Type ℓ} → Option A → Bool
is_some none = false
is_some (some a) = true

abbrev pub is_nil : List ℕ → Bool
is_nil [] = true
is_nil (x ∷ xs) = false

module _ (Output : Type 0) where
  pub record SessionLog : Type 0 where
    pub completed : Assoc (List ℕ) Output
    pub order : List (List ℕ)

  pub record ReliableCommands : Type 0 where
    pub maximum_completed_per_session : ℕ
    pub sessions : Assoc ℕ SessionLog

module _ {Output : Type 0} where
  unfoldable pub new : ℕ → ReliableCommands Output
  new n = record { maximum_completed_per_session = n; sessions = [] }

  abbrev pub empty_log : SessionLog Output
  empty_log = record { completed = []; order = [] }

  unfoldable pub attach_session : ReliableCommands Output → ℕ → ReliableCommands Output
  unfolding get insert
  attach_session r session_id = elim (get r.sessions session_id) [
    | none ↦ record r { sessions = insert r.sessions session_id empty_log }
    | some log ↦ r
  ]

  unfoldable pub replay : ReliableCommands Output → ℕ → List ℕ → Option Output
  unfolding get
  replay r session_id request_id = elim (get r.sessions session_id) [
    | none ↦ none
    | some log ↦ get log.completed request_id
  ]

  -- `while order.len() > maximum { pop_front, and remove from completed }`
  unfoldable pub trim : ℕ → List (List ℕ) → Assoc (List ℕ) Output → SessionLog Output
  unfolding remove
  trim maximum [] completed = record { completed = completed; order = [] }
  trim maximum (expired ∷ order) completed =
      let rest = trim maximum order (remove completed expired) in
      if ltb maximum (length (expired ∷ order))
      then rest
      else record { completed = completed; order = expired ∷ order }

  unfoldable pub log_completed : ℕ → SessionLog Output → List ℕ → Output → SessionLog Output
  unfolding trim get insert
  log_completed maximum log request_id result =
      trim maximum
        (if is_some (get log.completed request_id) then log.order else log.order ++ request_id ∷ [])
        (insert log.completed request_id result)

  unfoldable pub complete :
      ReliableCommands Output
      → ℕ
      → List ℕ
      → Output
      → ReliableCommands Output × Result ReliableError (Unit {0})
  unfolding log_completed get insert
  complete r session_id request_id result = elim (get r.sessions session_id) [
    | none ↦ (r, err (missing_session session_id))
    | some log ↦ if is_nil request_id then (r, err empty_request_id) else (
      record r {
        sessions =
            insert r.sessions session_id
              (log_completed r.maximum_completed_per_session log request_id result);
      },
      ok tt,
    )
  ]

  unfoldable pub remove_session : ReliableCommands Output → ℕ → ReliableCommands Output
  unfolding remove
  remove_session r session_id = record r { sessions = remove r.sessions session_id }
