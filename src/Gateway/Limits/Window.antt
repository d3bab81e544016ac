-- ===== src/Gateway/Limits/Window.antt =====
-- The throughput window: its shape, what a refused packet is billed, and what silence leaves.
use mumble_server_runtime.Base.{
  ℕ, suc, zero, ◌+◌, ◌≤◌, ◌<◌, ◌≡◌, refl, true, false, List, [], ◌∷◌, leb, nat_eq, ◌==◌, arith,
  length, set,
}
use mumble_server_runtime.Gateway.Limits.{
  VoiceBudget, roll, bandwidth, total, bandwidth_buckets, steps_between,
}

-- At most a burst of tokens, and ten buckets of 32 bits, one of them current.
pub record IsBudget (b : VoiceBudget) : Type 0 where
  pub tokens : b.tokens ≤ 400
  pub buckets : length b.billed ≡ 10
  pub current : b.bucket < 10

length-set : (xs : List ℕ) (i v : ℕ) → length (set xs i v) ≡ length xs
length-set [] i v = refl
length-set (x ∷ xs) zero v = refl
length-set (x ∷ xs) (suc i) v = omega (arith, length-set xs i v)

-- After a second without a packet the throughput is nothing.
pub bandwidth-silent :
    (b : VoiceBudget) (now : ℕ) → b.bucket_started + 1000000000 ≤ now → (bandwidth b now).1 ≡ 0
unfolding bandwidth roll total
bandwidth-silent b now h =
    let moved : (steps_between b.bucket_started now == 0) ≡ false = ground arith in
    let far : leb bandwidth_buckets (steps_between b.bucket_started now) ≡ true = ground arith in
    rw (moved, far, roll) refl
