-- ===== src/Shard/Queue/Progress.antt =====
-- A transition that is offered to a queue with room for it.
use mumble_server_runtime.Base.{
  ℕ, zero, suc, ◌≤◌, ◌≡◌, refl, sym, ◌∙◌, false, List, ok, ltb, length, nat_eq, ◌==◌, arith,
  Bool-cases, inl, inr,
}
use mumble_server_runtime.Shard.Queue.{
  Mpsc, Reservation, reserved, full, closed, OutboundQueue, all_reserved, not_enough, ended,
  release_all, reserve_all, admit_all, try_send_all,
}

module _ {M : Type 0} (c : Mpsc M) where
  -- The writer listens, and there are free slots for so many messages.
  pub record HasRoom (q : OutboundQueue c) (needed : ℕ) : Type 0 where
    pub listens : c.is_closed q.sender ≡ false
    pub free : needed ≤ c.capacity q.sender
    pub fits : needed ≤ c.max_capacity q.sender

  reserve_all_enough :
      (needed permits : ℕ) (s : c.State)
      → c.is_closed s ≡ false
      → needed ≤ c.capacity s
      → (t : c.State) × (reserve_all c needed permits s ≡ all_reserved t)
  unfolding reserve_all
  reserve_all_enough zero permits s listens free = (s, refl)
  reserve_all_enough (suc needed) permits s listens free =
      go (λ t. reserve_all_enough needed (suc permits) t) (c.try_reserve s) refl
    where
      go :
          ((t : c.State)
            → c.is_closed t ≡ false
            → needed ≤ c.capacity t
            → (u : c.State) × (reserve_all c needed (suc permits) t ≡ all_reserved u))
          → (o : Reservation c.State) → c.try_reserve s ≡ o
          → (u : c.State) × ((elim o [
            | reserved t ↦ reserve_all c needed (suc permits) t
            | full ↦ not_enough (release_all c permits s) permits
            | closed ↦ ended (release_all c permits s)
          ])
              ≡ all_reserved u)
      go rest (reserved t) e =
          rest t (c.reserve_is_closed s t e ∙ listens)
            (omega (arith, free, c.reserve_capacity s t e))
      go rest full e = absurd (omega (arith, free, c.reserve_full s e))
      go rest closed e = let clash = sym (c.reserve_closed s e) ∙ listens in cc

  pub try_send_all-HasRoom :
      (q : OutboundQueue c) (messages : List M)
      → HasRoom q (length messages)
      → (try_send_all c q messages).1 ≡ ok tt
  unfolding try_send_all admit_all
  try_send_all-HasRoom q messages room = elim (Bool-cases (length messages == 0)) [
    | inl none ↦ rw (none, try_send_all) refl
    | inr some ↦
        let fits : ltb (c.max_capacity q.sender) (length messages) ≡ false =
          not_over (c.max_capacity q.sender) (length messages) room.fits in
        let (t, all) = reserve_all_enough (length messages) 0 q.sender room.listens room.free in
        rw (some, fits, all, try_send_all) refl
  ]
    where
      not_over : (m n : ℕ) → n ≤ m → ltb m n ≡ false
      not_over m n h = ground arith
