-- ===== src/Shard/Journal.antt =====
-- runtime/crates/shard/src/journal.rs: the bounded history of deltas. The type of an operation is a
-- parameter: the journal never looks inside one. `u64` versions are natural numbers, with the
-- saturation of the additions written out.
pub mod Window
pub mod Replay
mod Examples
use mumble_server_runtime.Base.{
  ℕ, zero, suc, ◌+◌, ◌-◌, ◌^◌, ◌≤◌, Bool, List, [], ◌∷◌, ◌++◌, Result, ok, err, ltb, leb, length,
  take, drop, min, if◌then◌else◌,
}

abbrev pub history_depth : ℕ
history_depth = 256

abbrev pub u64_max : ℕ
u64_max = 2 ^ 64 - 1

abbrev pub saturating_suc : ℕ → ℕ
saturating_suc n = min (n + 1) u64_max

pub record TooFarBehind : Type 0 where
  pub cursor : ℕ
  pub tail : ℕ

abbrev pub concat {ℓ} : {A : Type ℓ} → List (List A) → List A
concat [] = []
concat (xs ∷ xss) = xs ++ concat xss

pub record Journal (Op : Type 0) : Type 0 where
  pub tail : ℕ
  pub head : ℕ
  pub entries : List (List Op)

module _ {Op : Type 0} where
  abbrev pub new : Journal Op
  new = record { tail = 0; head = 0; entries = [] }

  -- The `while` loop of `push`: one turn for each entry past the depth, on fuel.
  evict : ℕ → Journal Op → Journal Op
  evict zero j = j
  evict (suc fuel) j =
      let rest =
        evict fuel (record j { tail = saturating_suc j.tail; entries = drop 1 j.entries }) in
      if ltb history_depth (length j.entries) then rest else j

  -- The loop runs at most once for each entry.
  unfoldable pub push : Journal Op → List Op → Journal Op
  unfolding evict
  push j ops =
      evict (length j.entries + 1)
        (record j { head = saturating_suc j.head; entries = j.entries ++ ops ∷ [] })

  unfoldable pub replay : Journal Op → ℕ → ℕ → Result TooFarBehind (List Op)
  replay j from to =
      if ltb from j.tail
      then err (record { cursor = from; tail = j.tail })
      else (let to' = min to j.head in
          if leb to' from
          then ok []
          else ok (concat (drop (from - j.tail) (take (to' - j.tail) j.entries))))
