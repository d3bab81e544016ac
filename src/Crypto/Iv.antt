-- ===== src/Crypto/Iv.antt =====
-- runtime/crates/crypto/src/ocb2.rs: the IV as a little-endian counter, and the statistics. A block is
-- the list of its bytes.
pub mod Counter
mod Examples
use mumble_server_runtime.Base.{
  ℕ, zero, suc, ◌+◌, ◌-◌, ◌%◌, ◌≡◌, Bool, true, false, List, [], ◌∷◌, ltb, nat_eq, ◌==◌,
  if◌then◌else◌,
}
use mumble_server_runtime.Base.Int.{ℤ, pos, negsuc}

-- The loop of `increment_iv_from`, from the first byte that is not skipped.
unfoldable pub increment : List ℕ → List ℕ
increment [] = []
increment (byte ∷ iv) =
    let next = (byte + 1) % 256 in
    let rest = increment iv in next ∷ (if next == 0 then rest else iv)

unfoldable pub increment_iv_from : List ℕ → ℕ → List ℕ
unfolding increment
increment_iv_from iv zero = increment iv
increment_iv_from [] (suc start) = []
increment_iv_from (byte ∷ iv) (suc start) = byte ∷ increment_iv_from iv start

unfoldable pub increment_iv : List ℕ → List ℕ
unfolding increment_iv_from
increment_iv iv = increment_iv_from iv 0

-- `wrapping_sub(1)` of a byte is the addition of 255.
unfoldable pub decrement : List ℕ → List ℕ
decrement [] = []
decrement (was ∷ iv) =
    let rest = decrement iv in (was + 255) % 256 ∷ (if was == 0 then rest else iv)

unfoldable pub decrement_iv_from : List ℕ → ℕ → List ℕ
unfolding decrement
decrement_iv_from iv zero = decrement iv
decrement_iv_from [] (suc start) = []
decrement_iv_from (byte ∷ iv) (suc start) = byte ∷ decrement_iv_from iv start

-- `(*counter as i32) > delta.abs()`: a counter from 2^31 on is negative there.
abbrev is_above : ℕ → ℕ → Bool
is_above counter amount = if ltb counter 2147483648 then ltb amount counter else false

unfoldable pub apply_stat : ℕ → ℤ → ℕ
apply_stat counter (pos zero) = if is_above counter 0 then counter - 0 else counter
apply_stat counter (pos (suc n)) = (counter + suc n) % 4294967296
apply_stat counter (negsuc n) = if is_above counter (n + 1) then counter - (n + 1) else counter
