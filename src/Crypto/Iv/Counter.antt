-- ===== src/Crypto/Iv/Counter.antt =====
-- The bytes of the IV, counted up and down again.
use mumble_server_runtime.Base.{
  ℕ, zero, suc, ◌+◌, ◌%◌, ◌<◌, ◌≡◌, refl, ap, ap₂, List, [], ◌∷◌, nat_eq, ◌==◌, arith, All,
  Bool-cases, inl, inr,
}
use mumble_server_runtime.Crypto.Iv.{increment, increment_iv_from, decrement, decrement_iv_from}

abbrev pub IsBytes : List ℕ → Type 0
IsBytes iv = All (λ b. b < 256) iv

decrement-increment : (iv : List ℕ) → IsBytes iv → decrement (increment iv) ≡ iv
unfolding increment decrement
decrement-increment [] h = refl
decrement-increment (b ∷ iv) h = elim (Bool-cases ((b + 1) % 256 == 0)) [
  | inl wraps ↦ rw wraps (ap₂ ◌∷◌ (back b h.0) (decrement-increment iv h.1))
  | inr goes_on ↦ rw goes_on (ap (λ x. x ∷ iv) (back b h.0))
]
  where
    back : (b : ℕ) → b < 256 → ((b + 1) % 256 + 255) % 256 ≡ b
    back b h = omega arith

-- Going back from any byte on undoes going forward from there.
pub decrement_iv_from-increment_iv_from :
    (iv : List ℕ) (start : ℕ)
    → IsBytes iv
    → decrement_iv_from (increment_iv_from iv start) start ≡ iv
unfolding increment_iv_from decrement_iv_from
decrement_iv_from-increment_iv_from iv zero h = decrement-increment iv h
decrement_iv_from-increment_iv_from [] (suc start) h = refl
decrement_iv_from-increment_iv_from (b ∷ iv) (suc start) h =
    ap (λ x. b ∷ x) (decrement_iv_from-increment_iv_from iv start h.1)
