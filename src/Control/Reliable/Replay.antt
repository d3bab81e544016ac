-- ===== src/Control/Reliable/Replay.antt =====
-- What a session gets when it repeats a request.
use mumble_server_runtime.Base.{
  ℕ, ◌≤◌, ◌≡◌, sym, subst, ◌∙◌, false, some, List, ok, nat_eq, list_eq, ◌==◌, eq_self, Bool-cases,
  Option-cases, inl, inr,
}
use mumble_server_runtime.Base.Assoc.{Assoc, get, insert, get-insert, get-remove}
use mumble_server_runtime.Control.Reliable.{
  ReliableCommands, SessionLog, is_nil, new, attach_session, replay, log_completed, complete,
  remove_session, empty_log,
}
use mumble_server_runtime.Control.Reliable.Log.{
  IsLog, empty_log-IsLog, log_completed-IsLog, get-log_completed,
}

module _ {Output : Type 0} where
  -- Every session's log is in bounds.
  abbrev pub IsCommands : ReliableCommands Output → Type 0
  IsCommands r =
      (s : ℕ) (log : SessionLog Output)
      → get r.sessions s ≡ some log
      → IsLog r.maximum_completed_per_session log

  pub new-IsCommands : (n : ℕ) → IsCommands (new n)
  unfolding new get
  new-IsCommands n s log e = cc

  put-IsLog :
      (maximum : ℕ) (m : Assoc ℕ (SessionLog Output)) (k s : ℕ) (v log : SessionLog Output)
      → ((t : ℕ) (l : SessionLog Output) → get m t ≡ some l → IsLog maximum l)
      → IsLog maximum v
      → get (insert m k v) s ≡ some log
      → IsLog maximum log
  put-IsLog maximum m k s v log h hv e =
      let g = get-insert m k s v in
      elim (Bool-cases (k == s)) [
        | inl same ↦
            let f : some v ≡ some log = sym (rw same at g) ∙ e in
            let f' : v ≡ log = cc in subst (IsLog maximum) f' hv
        | inr other ↦ h s log (sym (rw other at g) ∙ e)
      ]

  pub attach_session-IsCommands :
      (r : ReliableCommands Output) (s : ℕ) → IsCommands r → IsCommands (attach_session r s)
  unfolding attach_session
  attach_session-IsCommands r s h = elim (Option-cases (get r.sessions s)) [
    | inl absent ↦
        rw (absent, attach_session)
          (λ t log e.
            put-IsLog r.maximum_completed_per_session r.sessions s t empty_log log h
              (empty_log-IsLog r.maximum_completed_per_session) e)
    | inr (log, present) ↦ rw (present, attach_session) h
  ]

  pub remove_session-IsCommands :
      (r : ReliableCommands Output) (s : ℕ) → IsCommands r → IsCommands (remove_session r s)
  unfolding remove_session
  remove_session-IsCommands r s h t log e =
      let g = get-remove r.sessions s t in
      elim (Bool-cases (s == t)) [
        | inl same ↦ let f = sym (rw same at g) ∙ e in cc
        | inr other ↦ h t log (sym (rw other at g) ∙ e)
      ]

  -- Completing a command keeps every session's log bounded, with exactly one place in its order for
  -- each result that it holds.
  pub complete-IsCommands :
      (r : ReliableCommands Output) (s : ℕ) (id : List ℕ) (result : Output)
      → IsCommands r
      → IsCommands (complete r s id result).0
  unfolding complete
  complete-IsCommands r s id result h = elim (Option-cases (get r.sessions s)) [
    | inl absent ↦ rw (absent, complete) h
    | inr (log, present) ↦ elim (Bool-cases (is_nil id)) [
      | inl empty ↦ rw (present, empty, complete) h
      | inr given ↦
          rw (present, given, complete)
            (λ t l e.
              put-IsLog r.maximum_completed_per_session r.sessions s t
                (log_completed r.maximum_completed_per_session log id result) l h
                (log_completed-IsLog r.maximum_completed_per_session log id result
                  (h s log present))
                e)
    ]
  ]

  -- A completed command is replayed with the result it was last completed with, where a log may
  -- hold anything at all; other sessions get what they got before.
  pub replay-complete :
      (r : ReliableCommands Output) (s : ℕ) (id : List ℕ) (result : Output)
      → IsCommands r
      → 1 ≤ r.maximum_completed_per_session
      → (complete r s id result).1 ≡ ok tt
      → let after = (complete r s id result).0 in
        (replay after s id ≡ some result)
        × ((t : ℕ) (j : List ℕ) → (s == t) ≡ false → replay after t j ≡ replay r t j)
  unfolding complete replay
  replay-complete r s id result h one e = elim (Option-cases (get r.sessions s)) [
    | inl absent ↦ let f = rw (absent, complete) at e in cc
    | inr (log, present) ↦ elim (Bool-cases (is_nil id)) [
      | inl empty ↦ let f = rw (present, empty, complete) at e in cc
      | inr given ↦
          let l = log_completed r.maximum_completed_per_session log id result in
          let own = get-insert r.sessions s s l in
          rw (present, given, complete)
            (
              rw (rw (eq_self s) at own, replay)
                  (get-log_completed r.maximum_completed_per_session log id result one
                    (h s log present)),
              λ t j other. let g = get-insert r.sessions s t l in rw (rw other at g, replay),
            )
    ]
  ]
