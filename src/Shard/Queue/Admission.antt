-- ===== src/Shard/Queue/Admission.antt =====
-- A transition that is offered to the queue, on every outcome.
use mumble_server_runtime.Base.{
  ℕ, zero, suc, ◌+◌, ◌≤◌, ◌<◌, ◌≡◌, refl, sym, ap, ◌∙◌, true, false, List, [], ◌∷◌, ◌++◌,
  append-nil, append_assoc, Result, ok, err, ltb, length, nat_eq, ◌==◌, arith, Bool-cases, inl, inr,
}
use mumble_server_runtime.Shard.Queue.{
  Mpsc, Reservation, reserved, full, closed, OutboundQueue, Reserved, all_reserved, not_enough,
  ended, release_all, reserve_all, send_all, admit_all, try_send_all, Refused, congested, too_large,
  writer_ended,
}

module _ {M : Type 0} (c : Mpsc M) where
  -- The same messages and as many free slots.
  abbrev pub IsSame : c.State → c.State → Type 0
  IsSame s t = (c.queued t ≡ c.queued s) × (c.capacity t ≡ c.capacity s)

  release_all_lem :
      (permits : ℕ) (s : c.State)
      → (c.queued (release_all c permits s) ≡ c.queued s)
        × (c.capacity (release_all c permits s) ≡ c.capacity s + permits)
  unfolding release_all
  release_all_lem zero s = (refl, omega arith)
  release_all_lem (suc permits) s =
      let (q, n) = release_all_lem permits (c.release s) in
      (q ∙ c.release_queued s, omega (arith, n, c.release_capacity s))

  -- What the loop holds when it ends, from a state with `permits` already held.
  abbrev LoopEnd : ℕ → ℕ → c.State → Reserved c → Type 0
  LoopEnd needed permits s (all_reserved t) =
      (c.queued t ≡ c.queued s) × (c.capacity s ≡ c.capacity t + needed)
  LoopEnd needed permits s (not_enough t free) =
      (c.queued t ≡ c.queued s)
      × (c.capacity t ≡ c.capacity s + permits)
      × (free ≡ c.capacity s + permits)
      × (c.capacity s < needed)
  LoopEnd needed permits s (ended t) =
      (c.queued t ≡ c.queued s) × (c.capacity t ≡ c.capacity s + permits) × (c.is_closed s ≡ true)

  reserve_all_lem :
      (needed permits : ℕ) (s : c.State) → LoopEnd needed permits s (reserve_all c needed permits s)
  unfolding reserve_all
  reserve_all_lem zero permits s = (refl, omega arith)
  reserve_all_lem (suc needed) permits s =
      go (reserve_all_lem needed (suc permits)) (c.try_reserve s) refl
    where
      later :
          (t : c.State) (r : Reserved c)
          → c.try_reserve s ≡ reserved t
          → LoopEnd needed (suc permits) t r
          → LoopEnd (suc needed) permits s r
      later t (all_reserved u) e h =
          (h.0 ∙ c.reserve_queued s t e, omega (arith, h.1, c.reserve_capacity s t e))
      later t (not_enough u free) e h = (
        h.0 ∙ c.reserve_queued s t e,
        omega (arith, h.1, c.reserve_capacity s t e),
        omega (arith, h.2, c.reserve_capacity s t e),
        omega (arith, h.3, c.reserve_capacity s t e),
      )
      later t (ended u) e h = (
        h.0 ∙ c.reserve_queued s t e,
        omega (arith, h.1, c.reserve_capacity s t e),
        sym (c.reserve_is_closed s t e) ∙ h.2,
      )

      go :
          ((t : c.State) → LoopEnd needed (suc permits) t (reserve_all c needed (suc permits) t))
          → (o : Reservation c.State) → c.try_reserve s ≡ o
          → LoopEnd (suc needed) permits s (elim o [
            | reserved t ↦ reserve_all c needed (suc permits) t
            | full ↦ not_enough (release_all c permits s) permits
            | closed ↦ ended (release_all c permits s)
          ])
      go rest (reserved t) e = later t _ e (rest t)
      go rest full e =
          let (queued, free) = release_all_lem permits s in
          (queued, free, omega (arith, c.reserve_full s e), omega (arith, c.reserve_full s e))
      go rest closed e =
          let (queued, free) = release_all_lem permits s in (queued, free, c.reserve_closed s e)

  send_all_lem :
      (messages : List M) (s : c.State)
      → (c.queued (send_all c s messages) ≡ c.queued s ++ messages)
        × (c.capacity (send_all c s messages) ≡ c.capacity s)
  unfolding send_all
  send_all_lem [] s = (sym (append-nil (c.queued s)), refl)
  send_all_lem (m ∷ messages) s =
      let (q, n) = send_all_lem messages (c.send s m) in
      (
        q
            ∙ ap (λ l. l ++ messages) (c.send_queued s m)
            ∙ append_assoc (c.queued s) (m ∷ []) messages,
        n ∙ c.send_capacity s m,
      )

  -- What a call leaves, by its result, and when it is that result.
  abbrev pub Outcome :
      OutboundQueue c → List M → OutboundQueue c → Result Refused (Unit {0}) → Type 0
  Outcome q messages after (ok _) =
      (c.queued after.sender ≡ c.queued q.sender ++ messages)
      × (c.capacity q.sender ≡ c.capacity after.sender + length messages)
      × (after.must_close ≡ q.must_close)
  Outcome q messages after (err (congested needed free)) =
      IsSame q.sender after.sender
      × (after.must_close ≡ q.must_close)
      × (needed ≡ length messages)
      × (free ≡ c.capacity q.sender)
      × (free < needed)
      × (needed ≤ c.max_capacity q.sender)
  Outcome q messages after (err (too_large needed capacity)) =
      IsSame q.sender after.sender
      × (after.must_close ≡ true)
      × (needed ≡ length messages)
      × (capacity ≡ c.max_capacity q.sender)
      × (capacity < needed)
  Outcome q messages after (err writer_ended) =
      IsSame q.sender after.sender × (after.must_close ≡ true) × (c.is_closed q.sender ≡ true)

  admit_all_lem :
      (q : OutboundQueue c) (messages : List M) (r : Reserved c)
      → length messages ≤ c.max_capacity q.sender
      → LoopEnd (length messages) 0 q.sender r
      → let (after, result) = admit_all c q messages r in Outcome q messages after result
  unfolding admit_all
  admit_all_lem q messages (all_reserved s) fits h =
      let (sent, n) = send_all_lem messages s in
      (sent ∙ ap (λ l. l ++ messages) h.0, omega (arith, h.1, n), refl)
  admit_all_lem q messages (not_enough s free) fits h =
      ((h.0, omega (arith, h.1)), refl, refl, omega (arith, h.2), omega (arith, h.2, h.3), fits)
  admit_all_lem q messages (ended s) fits h = ((h.0, omega (arith, h.1)), refl, h.2)

  -- A transition that is admitted stands whole, in order, at the end of the queue, and takes a slot
  -- for each message. One that is refused leaves the queue and its free slots as they were: for
  -- congestion where fewer slots are free than it needs, though it could fit; marked for closing where
  -- it has more messages than the channel has slots, or the channel is closed.
  pub try_send_all_lem :
      (q : OutboundQueue c) (messages : List M)
      → let (after, result) = try_send_all c q messages in Outcome q messages after result
  unfolding try_send_all
  try_send_all_lem q messages = elim (Bool-cases (length messages == 0)) [
    | inl none ↦ rw (none, try_send_all) (nothing messages none)
    | inr some ↦ elim (Bool-cases (ltb (c.max_capacity q.sender) (length messages))) [
      | inl over ↦ rw (some, over, try_send_all) ((refl, refl), refl, refl, refl, above _ _ over)
      | inr fits ↦
          rw (some, fits, try_send_all)
            (admit_all_lem q messages (reserve_all c (length messages) 0 q.sender)
              (not_over _ _ fits) (reserve_all_lem (length messages) 0 q.sender))
    ]
  ]
    where
      not_over : (m n : ℕ) → ltb m n ≡ false → n ≤ m
      not_over m n h = ground arith

      above : (m n : ℕ) → ltb m n ≡ true → m < n
      above m n h = ground arith

      nothing :
          (l : List M)
          → (length l == 0) ≡ true
          → (c.queued q.sender ≡ c.queued q.sender ++ l)
            × (c.capacity q.sender ≡ c.capacity q.sender + length l)
            × (q.must_close ≡ q.must_close)
      nothing [] e = (sym (append-nil (c.queued q.sender)), omega arith, refl)
      nothing (m ∷ l) e = ground arith
