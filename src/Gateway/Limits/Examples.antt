-- ===== src/Gateway/Limits/Examples.antt =====
-- The budgets at concrete instants, in milliseconds.
use mumble_server_runtime.Base.{
  ℕ, ◌≡◌, refl, false, List, [], ◌∷◌, replicate, arith, ◌≤◌, ◌+◌, ◌-◌, ◌*◌, ◌/◌,
}
use mumble_server_runtime.Gateway.Limits.{VoiceBudget, new, allow, bandwidth, new_text}
use mumble_server_runtime.Gateway.Limits.Rate.{admitted, admitted_bound}
use mumble_server_runtime.Gateway.Limits.Text.{admitted_texts, admitted_texts_bound}
use mumble_server_runtime.Gateway.Limits.Window.{bandwidth-silent}

abbrev at : ℕ → ℕ
at n = n * 1000000

abbrev calls : List (ℕ × ℕ)
calls = (at 0, 100) ∷ (at 9, 100) ∷ (at 20, 60) ∷ []

admitted_bound_example : admitted (new (at 0)) calls ≤ 400 + (at 30 - at 0) / 5000000
admitted_bound_example =
    admitted_bound (at 0) (at 30) calls (omega arith, (omega arith, (omega arith, omega arith)))

admitted_texts_bound_example :
    admitted_texts (new_text (at 0)) (at 0 ∷ at 1900 ∷ []) ≤ 5 + (at 2000 - at 0) / 1000000000
admitted_texts_bound_example =
    admitted_texts_bound (at 0) (at 2000) (at 0 ∷ at 1900 ∷ [])
      (omega arith, (omega arith, omega arith))

abbrev spent : VoiceBudget
spent = record {
  tokens = 0;
  last_refill = at 0;
  billed = replicate 10 0;
  bucket = 0;
  bucket_started = at 0;
  last_active = at 0;
}

refused : (allow spent (at 4) 100).1 ≡ false
unfolding allow
refused = refl

bandwidth-silent_example : (bandwidth spent (at 1000)).1 ≡ 0
bandwidth-silent_example = bandwidth-silent spent (at 1000) (omega arith)
