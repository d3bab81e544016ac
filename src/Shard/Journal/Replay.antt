-- ===== src/Shard/Journal/Replay.antt =====
-- What a connection that stands at a version is sent: the slice of the history that it has not seen.
use mumble_server_runtime.Base.{
  ℕ, zero, suc, ◌+◌, ◌-◌, ◌≤◌, ◌≡◌, refl, sym, ap, ap₂, ◌∙◌, inl, inr, List, [], ◌∷◌, arith, ok,
  err, ltb, leb, length, take, drop, min, if◌then◌else◌, Bool-cases, leb→le,
}
use mumble_server_runtime.Shard.Journal.{Journal, history_depth, concat, replay}
use mumble_server_runtime.Shard.Journal.Window.{IsWindow, drop-drop}

module _ {A : Type 0} where
  -- The elements from index `from` up to index `to`.
  abbrev pub slice : ℕ → ℕ → List A → List A
  slice from to xs = drop from (take to xs)

  take_nil : (n : ℕ) → take {A = A} n [] ≡ []
  take_nil zero = refl
  take_nil (suc n) = refl

  take-drop : (k n : ℕ) (xs : List A) → take n (drop k xs) ≡ drop k (take (k + n) xs)
  take-drop zero n xs = ap (λ m. take m xs) (omega arith)
  take-drop (suc k) zero [] = ap (drop (suc k)) (sym (take_nil (suc k + 0)))
  take-drop (suc k) (suc n) [] = ap (drop (suc k)) (sym (take_nil (suc k + suc n)))
  take-drop (suc k) n (x ∷ xs) =
      let e : suc k + n ≡ suc (k + n) = omega arith in rw e (take-drop k n xs)

  -- A slice of what remains after `tail` elements is a slice of the whole.
  slice-drop :
      (tail from to : ℕ) (xs : List A)
      → tail ≤ from
      → from ≤ to
      → drop (from - tail) (take (to - tail) (drop tail xs)) ≡ slice from to xs
  slice-drop tail from to xs h g =
      ap (drop (from - tail)) (take-drop tail (to - tail) xs)
      ∙ drop-drop (from - tail) tail (take (tail + (to - tail)) xs)
      ∙ ap₂ (λ m n. drop m (take n xs)) (omega arith) (omega arith)

  pub slice_empty : (from to : ℕ) (xs : List A) → to ≤ from → slice from to xs ≡ []
  slice_empty zero zero xs h = refl
  slice_empty zero (suc to) xs h = absurd (omega arith)
  slice_empty (suc from) zero xs h = refl
  slice_empty (suc from) (suc to) [] h = refl
  slice_empty (suc from) (suc to) (x ∷ xs) h = slice_empty from to xs (omega arith)

module _ {Op : Type 0} where
  -- On the window of a history, `replay` is refused below the last `history_depth` versions, and
  -- otherwise gives the operations of the versions asked for, up to the newest there is.
  pub replay-IsWindow :
      (history : List (List Op)) (j : Journal Op) (from to : ℕ)
      → IsWindow history j
      → replay j from to ≡ (
          if ltb from (length history - history_depth)
          then err (record { cursor = from; tail = length history - history_depth })
          else ok (concat (slice from (min to (length history)) history)))
  unfolding replay
  replay-IsWindow history j from to w =
      rw (w.tail, w.head, w.entries)
        (elim (Bool-cases (ltb from (length history - history_depth))) [
          | inl behind ↦ rw behind refl
          | inr near ↦ rw near (elim (Bool-cases (leb (min to (length history)) from)) [
            | inl done ↦ rw (
              done,
              slice_empty from (min to (length history)) history (omega (arith, leb→le _ _ done)),
            )
            | inr more ↦ rw (
              more,
              slice-drop (length history - history_depth) from (min to (length history)) history
                  (ground arith) (ground arith),
            )
          ])
        ])
