-- ===== src/Crypto/Iv/Examples.antt =====
-- A carry out of the first byte.
use mumble_server_runtime.Base.{ℕ, ◌≡◌, refl, List, [], ◌∷◌, arith}
use mumble_server_runtime.Crypto.Iv.{increment_iv, increment_iv_from, decrement_iv_from}
use mumble_server_runtime.Crypto.Iv.Counter.{IsBytes, decrement_iv_from-increment_iv_from}

abbrev iv : List ℕ
iv = 255 ∷ 7 ∷ []

iv-IsBytes : IsBytes iv
iv-IsBytes = (omega arith, (omega arith, tt))

next : increment_iv iv ≡ 0 ∷ 8 ∷ []
unfolding increment_iv
next = refl

decrement_iv_from-increment_iv_from_example : decrement_iv_from (increment_iv_from iv 1) 1 ≡ iv
decrement_iv_from-increment_iv_from_example = decrement_iv_from-increment_iv_from iv 1 iv-IsBytes
