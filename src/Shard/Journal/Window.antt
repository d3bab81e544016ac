-- ===== src/Shard/Journal/Window.antt =====
-- The journal as a window on the whole history: it holds the last `history_depth` deltas.

use mumble_server_runtime.Base.{
  ℕ, zero, suc, ◌+◌, ◌-◌, ◌≤◌, ◌<◌, ◌≡◌, refl, sym, ap, ap₂, ◌∙◌, true, List, [], ◌∷◌, ◌++◌, arith,
  ltb, lt→ltb, length, drop, length-append, length-drop,
}
use mumble_server_runtime.Shard.Journal.{
  Journal, history_depth, u64_max, saturating_suc, new, evict, push,
}

module _ {A : Type 0} where
  pub drop_nil : (n : ℕ) → drop {A = A} n [] ≡ []
  drop_nil zero = refl
  drop_nil (suc n) = refl

  pub drop-drop : (m n : ℕ) (xs : List A) → drop m (drop n xs) ≡ drop (n + m) xs
  drop-drop m zero xs = ap (λ k. drop k xs) (omega arith)
  drop-drop m (suc n) [] = drop_nil m ∙ sym (drop_nil (suc n + m))
  drop-drop m (suc n) (x ∷ xs) =
      let e : suc n + m ≡ suc (n + m) = omega arith in rw e (drop-drop m n xs)

  pub drop-append_le :
      (n : ℕ) (xs ys : List A) → n ≤ length xs → drop n (xs ++ ys) ≡ drop n xs ++ ys
  drop-append_le zero xs ys h = refl
  drop-append_le (suc n) [] ys h = absurd (omega arith)
  drop-append_le (suc n) (x ∷ xs) ys h = drop-append_le n xs ys (omega arith)

module _ {Op : Type 0} where
  -- `j` is what remains after the deltas of `history` were pushed, oldest first.
  pub record IsWindow (history : List (List Op)) (j : Journal Op) : Type 0 where
    pub head : j.head ≡ length history
    pub tail : j.tail ≡ length history - history_depth
    pub entries : j.entries ≡ drop (length history - history_depth) history

  abbrev journal : ℕ → ℕ → List (List Op) → Journal Op
  journal tail head entries = record { tail = tail; head = head; entries = entries }

  -- The loop ends with the entries that fit, its fuel being at least their surplus.
  evict_lem :
      (fuel excess : ℕ) (j : Journal Op)
      → excess ≤ fuel
      → length j.entries - history_depth ≡ excess
      → j.tail + excess ≤ u64_max
      → evict fuel j ≡ record j { tail = j.tail + excess; entries = drop excess j.entries }
  unfolding evict
  evict_lem zero zero j f e s = ground arith
  evict_lem (suc fuel) zero j f e s = ground arith
  evict_lem zero (suc n) j f e s = absurd (omega arith)
  evict_lem (suc fuel) (suc n) j f e s =
      let next : Journal Op = record j {
        tail = saturating_suc j.tail;
        entries = drop 1 j.entries;
      } in
      let more : ltb history_depth (length j.entries) ≡ true = lt→ltb _ _ (omega arith) in
      let rest : evict fuel next
          ≡ journal (saturating_suc j.tail + n) j.head (drop n (drop 1 j.entries)) =
        evict_lem fuel n next (omega arith) (omega (arith, length-drop 1 j.entries))
          (omega arith) in
      rw more (
        rest
        ∙ ap₂ (λ t es. journal t j.head es) (omega arith)
            (drop-drop n 1 j.entries ∙ ap (λ k. drop k j.entries) {y = suc n} (omega arith)))

  pub new-IsWindow : IsWindow [] (new {Op = Op})
  new-IsWindow = record { head = refl; tail = refl; entries = refl }

  -- A push adds its delta to the history that the journal is the window of.
  pub push-IsWindow :
      (history : List (List Op)) (j : Journal Op) (ops : List Op)
      → length history < u64_max
      → IsWindow history j
      → IsWindow (history ++ ops ∷ []) (push j ops)
  unfolding push
  push-IsWindow history j ops room w =
      let kept : length j.entries ≡ length history - (length history - history_depth) =
        ap length w.entries ∙ length-drop (length history - history_depth) history in
      let surplus : ℕ = length history + 1 - history_depth - (length history - history_depth) in
      let grown : length (j.entries ++ ops ∷ []) ≡ length j.entries + 1 =
        length-append j.entries (ops ∷ []) in
      let total : length (history ++ ops ∷ []) ≡ length history + 1 =
        length-append history (ops ∷ []) in
      let done =
        evict_lem (length j.entries + 1) surplus
          (record j { head = saturating_suc j.head; entries = j.entries ++ ops ∷ [] }) (omega arith)
          (omega arith) (omega (arith, w.tail)) in
      rw done (record {
        head = omega (arith, w.head);
        tail = omega (arith, w.tail);
        entries =
            ap (λ es. drop surplus (es ++ ops ∷ [])) w.entries
            ∙ ap (drop surplus) (
                sym (
                  drop-append_le (length history - history_depth) history (ops ∷ []) (omega arith)))
            ∙ drop-drop surplus (length history - history_depth) (history ++ ops ∷ [])
            ∙ ap (λ k. drop k (history ++ ops ∷ [])) (omega arith);
      })

  evict-head : (fuel : ℕ) (j : Journal Op) → (evict fuel j).head ≡ j.head
  unfolding evict
  evict-head zero j = refl
  evict-head (suc fuel) j = ground (
    arith,
    evict-head fuel (record j { tail = saturating_suc j.tail; entries = drop 1 j.entries }),
  )

  -- A push moves the head by one, whatever it evicts.
  pub push-head : (j : Journal Op) (ops : List Op) → (push j ops).head ≡ saturating_suc j.head
  unfolding push
  push-head j ops =
      evict-head (length j.entries + 1)
        (record j { head = saturating_suc j.head; entries = j.entries ++ ops ∷ [] })
