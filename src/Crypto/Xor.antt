-- ===== src/Crypto/Xor.antt =====
-- The laws of the exclusive or.
use Prim.Native.Nat.{bit_xor, bit_xor-bitwise, digits, differ}
use mumble_server_runtime.Base.{
  ℕ, zero, suc, ◌+◌, ◌*◌, ◌/◌, ◌%◌, ◌≤◌, ◌<◌, ◌≡◌, refl, sym, ap₂, ◌∙◌, arith,
}

-- The law for the lowest digit, by any number of digits that is enough.
abbrev xor_digits : ℕ → ℕ → ℕ → ℕ
xor_digits n a b = digits (λ b. b) differ n a b

xor_digits_enough : (n m a b : ℕ) → a ≤ n → a ≤ m → xor_digits n a b ≡ xor_digits m a b
xor_digits_enough zero zero a b p q = refl
xor_digits_enough zero (suc m) zero b p q = refl
xor_digits_enough zero (suc m) (suc a) b p q = absurd (omega arith)
xor_digits_enough (suc n) zero zero b p q = refl
xor_digits_enough (suc n) zero (suc a) b p q = absurd (omega arith)
xor_digits_enough (suc n) (suc m) zero b p q = refl
xor_digits_enough (suc n) (suc m) (suc a) b p q =
    omega (arith, xor_digits_enough n m (suc a / 2) (b / 2) (omega arith) (omega arith))

pub zero-bit_xor : (b : ℕ) → bit_xor 0 b ≡ b
zero-bit_xor b = bit_xor-bitwise 0 b

differ_zero : (n : ℕ) → differ n 0 ≡ n
differ_zero zero = refl
differ_zero (suc n) = refl

bit_xor_step : (a b : ℕ) → bit_xor a b ≡ bit_xor (a / 2) (b / 2) * 2 + differ (a % 2) (b % 2)
bit_xor_step zero b = omega (arith, zero-bit_xor b, zero-bit_xor (b / 2))
bit_xor_step (suc a) b = omega (
  arith,
  bit_xor-bitwise (suc a) b,
  bit_xor-bitwise (suc a / 2) (b / 2),
  xor_digits_enough a (suc a / 2) (suc a / 2) (b / 2) (omega arith) (omega arith),
)

-- Two digits differ by one at most.
digit : (x y : ℕ) → x < 2 → y < 2 → differ x y < 2
digit zero y p q = omega arith
digit (suc zero) zero p q = omega arith
digit (suc zero) (suc zero) p q = omega arith
digit (suc zero) (suc (suc y)) p q = absurd (omega arith)
digit (suc (suc x)) y p q = absurd (omega arith)

half : (a b : ℕ) → bit_xor a b / 2 ≡ bit_xor (a / 2) (b / 2)
half a b = omega (arith, bit_xor_step a b, digit (a % 2) (b % 2) (omega arith) (omega arith))

low : (a b : ℕ) → bit_xor a b % 2 ≡ differ (a % 2) (b % 2)
low a b = omega (arith, bit_xor_step a b, digit (a % 2) (b % 2) (omega arith) (omega arith))

differ_comm : (x y : ℕ) → differ x y ≡ differ y x
differ_comm zero y = sym (differ_zero y)
differ_comm (suc x) zero = refl
differ_comm (suc x) (suc y) = differ_comm x y

differ_swap : (x y z : ℕ) → x < 2 → y < 2 → z < 2 → differ x (differ y z) ≡ differ y (differ x z)
differ_swap zero y z p q r = refl
differ_swap (suc zero) zero z p q r = refl
differ_swap (suc zero) (suc zero) z p q r = refl
differ_swap (suc zero) (suc (suc y)) z p q r = absurd (omega arith)
differ_swap (suc (suc x)) y z p q r = absurd (omega arith)

differ_twice : (x y : ℕ) → x < 2 → y < 2 → differ x (differ x y) ≡ y
differ_twice zero y p q = refl
differ_twice (suc zero) zero p q = refl
differ_twice (suc zero) (suc zero) p q = refl
differ_twice (suc zero) (suc (suc y)) p q = absurd (omega arith)
differ_twice (suc (suc x)) y p q = absurd (omega arith)

nested_step :
    (a b c : ℕ)
    → bit_xor a (bit_xor b c)
      ≡ bit_xor (a / 2) (bit_xor (b / 2) (c / 2)) * 2 + differ (a % 2) (differ (b % 2) (c % 2))
nested_step a b c =
    bit_xor_step a (bit_xor b c)
    ∙ ap₂ (λ h l. bit_xor (a / 2) h * 2 + differ (a % 2) l) (half b c) (low b c)

-- The laws, by induction on a bound of the numbers.
comm_below : (n a b : ℕ) → a ≤ n → b ≤ n → bit_xor a b ≡ bit_xor b a
comm_below zero zero zero p q = refl
comm_below zero zero (suc b) p q = absurd (omega arith)
comm_below zero (suc a) b p q = absurd (omega arith)
comm_below (suc n) a b p q = omega (
  arith,
  bit_xor_step a b,
  bit_xor_step b a,
  differ_comm (a % 2) (b % 2),
  comm_below n (a / 2) (b / 2) (omega arith) (omega arith),
)

swap_below :
    (n a b c : ℕ) → a ≤ n → b ≤ n → c ≤ n → bit_xor a (bit_xor b c) ≡ bit_xor b (bit_xor a c)
swap_below zero zero zero c p q r = refl
swap_below zero zero (suc b) c p q r = absurd (omega arith)
swap_below zero (suc a) b c p q r = absurd (omega arith)
swap_below (suc n) a b c p q r = omega (
  arith,
  nested_step a b c,
  nested_step b a c,
  differ_swap (a % 2) (b % 2) (c % 2) (omega arith) (omega arith) (omega arith),
  swap_below n (a / 2) (b / 2) (c / 2) (omega arith) (omega arith) (omega arith),
)

twice_below : (n a b : ℕ) → a ≤ n → b ≤ n → bit_xor a (bit_xor a b) ≡ b
twice_below zero zero zero p q = refl
twice_below zero zero (suc b) p q = absurd (omega arith)
twice_below zero (suc a) b p q = absurd (omega arith)
twice_below (suc n) a b p q = omega (
  arith,
  nested_step a a b,
  differ_twice (a % 2) (b % 2) (omega arith) (omega arith),
  twice_below n (a / 2) (b / 2) (omega arith) (omega arith),
)

pub bit_xor_comm : (a b : ℕ) → bit_xor a b ≡ bit_xor b a
bit_xor_comm a b = comm_below (a + b) a b (omega arith) (omega arith)

pub bit_xor_swap : (a b c : ℕ) → bit_xor a (bit_xor b c) ≡ bit_xor b (bit_xor a c)
bit_xor_swap a b c = swap_below (a + b + c) a b c (omega arith) (omega arith) (omega arith)

pub bit_xor_twice : (a b : ℕ) → bit_xor a (bit_xor a b) ≡ b
bit_xor_twice a b = twice_below (a + b) a b (omega arith) (omega arith)
