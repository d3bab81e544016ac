-- ===== src/Gateway/Limits/Text.antt =====
-- How many text messages get through in a span of time.
use mumble_server_runtime.Base.{
  ℕ, ◌+◌, ◌-◌, ◌*◌, ◌/◌, ◌≤◌, ◌<◌, ◌≡◌, Bool, true, false, List, [], ◌∷◌, nat_eq, ◌==◌, arith,
  Bool-cases, inl, inr,
}
use mumble_server_runtime.Gateway.Limits.{TextBudget, refill_text, allow_text, new_text, accrued}
use mumble_server_runtime.Gateway.Limits.Rate.{cost}

-- The time, in nanoseconds, that a budget is worth at `now`: a message is one second.
abbrev worth : TextBudget → ℕ → ℕ
worth b now = b.tokens * 1000000000 + (now - b.last_refill)

accrued-text : (elapsed : ℕ) → accrued elapsed 1 * 1000000000 ≤ elapsed
accrued-text elapsed = omega arith

refill-worth : (b : TextBudget) (now : ℕ) → worth (refill_text b now) now ≤ worth b now
unfolding refill_text
refill-worth b now = ground (arith, accrued-text (now - b.last_refill))

allow-worth :
    (b : TextBudget) (now : ℕ)
    → let (after, ok) = allow_text b now in cost ok 1000000000 + worth after now ≤ worth b now
unfolding allow_text
allow-worth b now =
    let r = refill_text b now in
    elim (Bool-cases (r.tokens == 0)) [
      | inl empty ↦ rw empty (omega (arith, refill-worth b now))
      | inr given ↦ rw given (omega (arith, given_pos r.tokens given, refill-worth b now))
    ]
  where
    given_pos : (n : ℕ) → (n == 0) ≡ false → 0 < n
    given_pos n h = ground arith

-- The calls of `allow`, at their instants: how many let the message through.
unfoldable pub admitted_texts : TextBudget → List ℕ → ℕ
admitted_texts b [] = 0
admitted_texts b (now ∷ calls) =
    let (after, ok) = allow_text b now in cost ok 1 + admitted_texts after calls

abbrev pub IsTimed : ℕ → List ℕ → ℕ → Type 0
IsTimed start [] end = start ≤ end
IsTimed start (now ∷ calls) end = (start ≤ now) × IsTimed now calls end

timed_end : (start end : ℕ) (calls : List ℕ) → IsTimed start calls end → start ≤ end
timed_end start end [] h = h
timed_end start end (now ∷ calls) h = omega (arith, h.0, timed_end now end calls h.1)

worth_step :
    (ok : Bool) (later now_worth after_worth before_worth start now end : ℕ)
    → start ≤ now
    → now ≤ end
    → cost ok 1000000000 + after_worth ≤ now_worth
    → now_worth ≤ before_worth + (now - start)
    → later * 1000000000 ≤ after_worth + (end - now)
    → (cost ok 1 + later) * 1000000000 ≤ before_worth + (end - start)
worth_step true later now_worth after_worth before_worth start now end p q h k l = omega arith
worth_step false later now_worth after_worth before_worth start now end p q h k l = omega arith

admitted-worth :
    (b : TextBudget) (start end : ℕ) (calls : List ℕ)
    → IsTimed start calls end
    → admitted_texts b calls * 1000000000 ≤ worth b start + (end - start)
unfolding admitted_texts
admitted-worth b start end [] h = omega arith
admitted-worth b start end (now ∷ calls) h =
    let rest = admitted-worth (allow_text b now).0 now end calls h.1 in
    let here = allow-worth b now in
    let (after, ok) = allow_text b now in
    worth_step ok (admitted_texts after calls) (worth b now) (worth after now) (worth b start) start
      now end h.0 (timed_end now end calls h.1) here (omega arith) rest

-- Over any run of calls, with the clock not running backwards, a new budget lets through at most
-- a burst of 5 messages and one more for every second.
pub admitted_texts_bound :
    (start end : ℕ) (calls : List ℕ)
    → IsTimed start calls end
    → admitted_texts (new_text start) calls ≤ 5 + (end - start) / 1000000000
unfolding new_text
admitted_texts_bound start end calls h =
    omega (arith, admitted-worth (new_text start) start end calls h)
