-- ===== src/Crypto/Ocb2/Blocks.antt =====
-- The exclusive or of blocks, and what it undoes.
use Prim.Native.Nat.{bit_xor}
use mumble_server_runtime.Base.{
  ℕ, zero, suc, ◌+◌, ◌/◌, ◌≤◌, ◌≡◌, refl, ap, ap₂, ◌∙◌, arith, Bool, true, false, List, [], ◌∷◌,
  ◌++◌, length, min, take, drop, replicate,
}
use mumble_server_runtime.Crypto.Xor.{zero-bit_xor, bit_xor_comm, bit_xor_swap, bit_xor_twice}
use mumble_server_runtime.Crypto.Ocb2.{xor, shift, times2, flip_first}

pub length-xor : (xs ys : List ℕ) → length (xor xs ys) ≡ min (length xs) (length ys)
unfolding xor
length-xor [] ys = omega arith
length-xor (x ∷ xs) [] = omega arith
length-xor (x ∷ xs) (y ∷ ys) = omega (arith, length-xor xs ys)

length-shift : (xs : List ℕ) (carry : ℕ) → length (shift xs carry) ≡ length xs
unfolding shift
length-shift [] carry = refl
length-shift (x ∷ []) carry = refl
length-shift (x ∷ y ∷ rest) carry = ap suc (length-shift (y ∷ rest) carry)

pub length-times2 : (xs : List ℕ) → length (times2 xs) ≡ length xs
unfolding times2
length-times2 [] = refl
length-times2 (x ∷ rest) = length-shift (x ∷ rest) (x / 128)

pub length-flip_first : (f : Bool) (xs : List ℕ) → length (flip_first f xs) ≡ length xs
unfolding flip_first
length-flip_first true [] = refl
length-flip_first true (x ∷ xs) = refl
length-flip_first false xs = refl

pub xor_twice : (xs ys : List ℕ) → length ys ≤ length xs → xor xs (xor xs ys) ≡ ys
unfolding xor
xor_twice [] [] h = refl
xor_twice [] (y ∷ ys) h = absurd (omega arith)
xor_twice (x ∷ xs) [] h = refl
xor_twice (x ∷ xs) (y ∷ ys) h =
    ap₂ (λ z zs. z ∷ zs) (bit_xor_twice x y) (xor_twice xs ys (omega arith))

pub flip_first-xor :
    (f : Bool) (xs ys : List ℕ) → flip_first f (xor xs ys) ≡ xor xs (flip_first f ys)
unfolding flip_first xor
flip_first-xor true [] ys = refl
flip_first-xor true (x ∷ xs) [] = refl
flip_first-xor true (x ∷ xs) (y ∷ ys) =
    ap (λ z. z ∷ xor xs ys)
      (bit_xor_comm (bit_xor x y) 1 ∙ bit_xor_swap 1 x y ∙ ap (bit_xor x) (bit_xor_comm 1 y))
flip_first-xor false xs ys = refl

zeros_xor : (n : ℕ) (pad : List ℕ) → n ≡ length pad → xor (replicate n 0) pad ≡ pad
unfolding xor
zeros_xor zero [] h = refl
zeros_xor zero (y ∷ ys) h = absurd (omega arith)
zeros_xor (suc n) [] h = absurd (omega arith)
zeros_xor (suc n) (y ∷ ys) h = ap₂ (λ z zs. z ∷ zs) (zero-bit_xor y) (zeros_xor n ys (omega arith))

-- The last, short block: what is sent of it, filled up with zeros, gives the tail that the sender
-- put into the checksum.
pub tail_opened :
    (n : ℕ) (rest pad : List ℕ)
    → n + length rest ≡ length pad
    → let tail = rest ++ drop (length rest) pad in
      xor (take (length rest) (xor pad tail) ++ replicate n 0) pad ≡ tail
unfolding xor
tail_opened n [] pad h = zeros_xor n pad (omega arith)
tail_opened n (x ∷ rest) [] h = absurd (omega arith)
tail_opened n (x ∷ rest) (y ∷ pad) h =
    ap₂ (λ z zs. z ∷ zs) (bit_xor_comm (bit_xor y x) y ∙ bit_xor_twice y x)
      (tail_opened n rest pad (omega arith))
