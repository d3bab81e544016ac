-- ===== src/Gateway/Limits/Rate.antt =====
-- How many packets, and how many messages, get through in a span of time.
use mumble_server_runtime.Base.{
  ℕ, ◌+◌, ◌-◌, ◌*◌, ◌/◌, ◌≤◌, ◌<◌, ◌≡◌, refl, min, Bool, true, false, List, [], ◌∷◌, leb, nat_eq,
  ◌==◌, if◌then◌else◌, arith, Bool-cases, inl, inr,
}
use mumble_server_runtime.Gateway.Limits.{
  VoiceBudget, new, refill, roll, admit, allow, accrued, u32_max, steps_between, bandwidth_buckets,
}

-- The time, in nanoseconds, that a budget is worth at `now`: a packet is 5 ms.
abbrev worth : VoiceBudget → ℕ → ℕ
worth b now = b.tokens * 5000000 + (now - b.last_refill)

accrued-voice : (elapsed : ℕ) → min (accrued elapsed 200) u32_max * 5000000 ≤ elapsed
accrued-voice elapsed = omega arith

refill-worth : (b : VoiceBudget) (now : ℕ) → worth (refill b now) now ≤ worth b now
unfolding refill
refill-worth b now = ground (arith, accrued-voice (now - b.last_refill))

roll-tokens :
    (b : VoiceBudget) (now : ℕ)
    → ((roll b now).tokens ≡ b.tokens) × ((roll b now).last_refill ≡ b.last_refill)
unfolding roll
roll-tokens b now = elim (Bool-cases (steps_between b.bucket_started now == 0)) [
  | inl still ↦ rw (still, roll) (refl, refl)
  | inr moved ↦ elim (Bool-cases (leb bandwidth_buckets (steps_between b.bucket_started now))) [
    | inl far ↦ rw (moved, far, roll) (refl, refl)
    | inr near ↦ rw (moved, near, roll) (refl, refl)
  ]
]

-- What a call takes from the budget.
abbrev pub cost : Bool → ℕ → ℕ
cost admitted price = if admitted then price else 0

allow-worth :
    (b : VoiceBudget) (now bytes : ℕ)
    → let (after, ok) = allow b now bytes in cost ok 5000000 + worth after now ≤ worth b now
unfolding allow admit
allow-worth b now bytes =
    let r = refill b now in
    let kept = roll-tokens (record r { tokens = r.tokens - 1 }) now in
    elim (Bool-cases (r.tokens == 0)) [
      | inl empty ↦ rw empty (omega (arith, refill-worth b now))
      | inr given ↦
          rw (given, kept.0, kept.1) (omega (arith, given_pos r.tokens given, refill-worth b now))
    ]
  where
    given_pos : (n : ℕ) → (n == 0) ≡ false → 0 < n
    given_pos n h = ground arith

-- The calls of `allow`, each with its instant and its bytes: how many let the packet through.
unfoldable pub admitted : VoiceBudget → List (ℕ × ℕ) → ℕ
admitted b [] = 0
admitted b ((now, bytes) ∷ calls) =
    let (after, ok) = allow b now bytes in cost ok 1 + admitted after calls

-- The clock does not run backwards: the calls stand in order between two instants.
abbrev pub IsTimed : ℕ → List (ℕ × ℕ) → ℕ → Type 0
IsTimed start [] end = start ≤ end
IsTimed start ((now, bytes) ∷ calls) end = (start ≤ now) × IsTimed now calls end

timed_end : (start end : ℕ) (calls : List (ℕ × ℕ)) → IsTimed start calls end → start ≤ end
timed_end start end [] h = h
timed_end start end ((now, bytes) ∷ calls) h = omega (arith, h.0, timed_end now end calls h.1)

-- One call and the rest of them.
worth_step :
    (ok : Bool) (later now_worth after_worth before_worth start now end : ℕ)
    → start ≤ now
    → now ≤ end
    → cost ok 5000000 + after_worth ≤ now_worth
    → now_worth ≤ before_worth + (now - start)
    → later * 5000000 ≤ after_worth + (end - now)
    → (cost ok 1 + later) * 5000000 ≤ before_worth + (end - start)
worth_step true later now_worth after_worth before_worth start now end p q h k l = omega arith
worth_step false later now_worth after_worth before_worth start now end p q h k l = omega arith

admitted-worth :
    (b : VoiceBudget) (start end : ℕ) (calls : List (ℕ × ℕ))
    → IsTimed start calls end
    → admitted b calls * 5000000 ≤ worth b start + (end - start)
unfolding admitted
admitted-worth b start end [] h = omega arith
admitted-worth b start end ((now, bytes) ∷ calls) h =
    let rest = admitted-worth (allow b now bytes).0 now end calls h.1 in
    let here = allow-worth b now bytes in
    let (after, ok) = allow b now bytes in
    worth_step ok (admitted after calls) (worth b now) (worth after now) (worth b start) start now
      end h.0 (timed_end now end calls h.1) here (omega arith) rest

-- Over any run of calls, with the clock not running backwards, a new budget lets through at most
-- a burst of 400 packets and one more for every 5 ms.
pub admitted_bound :
    (start end : ℕ) (calls : List (ℕ × ℕ))
    → IsTimed start calls end
    → admitted (new start) calls ≤ 400 + (end - start) / 5000000
unfolding new
admitted_bound start end calls h = omega (arith, admitted-worth (new start) start end calls h)
