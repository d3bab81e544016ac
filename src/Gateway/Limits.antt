-- ===== src/Gateway/Limits.antt =====
-- runtime/crates/gateway/src/limits.rs: the voice and the text budget of a connection. An `Instant`
-- is a number of nanoseconds since some fixed one, a `Duration` a number of nanoseconds; the clock
-- never comes near the end of their range, where adding to an `Instant` would panic.
pub mod Rate
pub mod Text
pub mod Window
mod Examples
use mumble_server_runtime.Base.{
  ℕ, suc, zero, ◌+◌, ◌-◌, ◌*◌, ◌/◌, ◌%◌, ◌^◌, min, Bool, true, false, ◌&&◌, List, [], ◌∷◌, ltb, leb,
  replicate, set, get_or, nat_eq, ◌==◌, if◌then◌else◌,
}

abbrev pub min_udp_packet_size : ℕ
min_udp_packet_size = 2

abbrev pub max_udp_packet_size : ℕ
max_udp_packet_size = 1024

abbrev packets_per_second : ℕ
packets_per_second = 200

abbrev pub burst : ℕ
burst = 400

abbrev packet_overhead : ℕ
packet_overhead = 20 + 8 + 4

abbrev pub bandwidth_buckets : ℕ
bandwidth_buckets = 10

-- `Duration::from_millis`
abbrev pub millis : ℕ → ℕ
millis n = n * 1000000

abbrev pub as_millis : ℕ → ℕ
as_millis d = d / 1000000

abbrev bucket_span : ℕ
bucket_span = 100

abbrev window : ℕ
window = 1000

abbrev pub u32_max : ℕ
u32_max = 4294967295

abbrev usize_max : ℕ
usize_max = 18446744073709551615

abbrev u128_max : ℕ
u128_max = 340282366920938463463374607431768211455

-- `a.saturating_add(b)` of `u32`s
abbrev pub saturating_add : ℕ → ℕ → ℕ
saturating_add a b = min (a + b) u32_max

-- `elapsed.as_millis().saturating_mul(rate) / 1000`
abbrev pub accrued : ℕ → ℕ → ℕ
accrued elapsed rate = min (as_millis elapsed * rate) u128_max / 1000

pub record VoiceBudget : Type 0 where
  pub tokens : ℕ
  pub last_refill : ℕ
  pub billed : List ℕ
  pub bucket : ℕ
  pub bucket_started : ℕ
  pub last_active : ℕ

unfoldable pub new : ℕ → VoiceBudget
new now = record {
  tokens = burst;
  last_refill = now;
  billed = replicate bandwidth_buckets 0;
  bucket = 0;
  bucket_started = now;
  last_active = now;
}

unfoldable pub refill : VoiceBudget → ℕ → VoiceBudget
refill b now =
    let elapsed = now - b.last_refill in
    let earned = min (accrued elapsed packets_per_second) u32_max in
    if ltb elapsed (millis 1)
    then b
    else if earned == 0
    then b
    else record b { tokens = min (saturating_add b.tokens earned) burst; last_refill = now }

-- `for step in 1..=steps`: the steps before the last one first.
unfoldable pub clear_steps : List ℕ → ℕ → ℕ → List ℕ
clear_steps billed bucket zero = billed
clear_steps billed bucket (suc n) =
    set (clear_steps billed bucket n) ((bucket + suc n) % bandwidth_buckets) 0

-- The boundary that the window is anchored on.
abbrev pub anchored : ℕ → ℕ → ℕ → ℕ
anchored started steps now =
    let moved = started + millis bucket_span * min steps u32_max in
    if ltb (millis window) (now - moved) then now else moved

-- `usize::try_from(elapsed.as_millis() / BUCKET.as_millis()).unwrap_or(usize::MAX)`
abbrev pub steps_between : ℕ → ℕ → ℕ
steps_between started now = min (as_millis (now - started) / bucket_span) usize_max

unfoldable pub roll : VoiceBudget → ℕ → VoiceBudget
unfolding clear_steps
roll b now =
    let steps = steps_between b.bucket_started now in
    if steps == 0
    then b
    else if leb bandwidth_buckets steps
    then record b {
      billed = replicate bandwidth_buckets 0;
      bucket = 0;
      bucket_started = anchored b.bucket_started steps now;
    }
    else record b {
      billed = clear_steps b.billed b.bucket steps;
      bucket = (b.bucket + steps) % bandwidth_buckets;
      bucket_started = anchored b.bucket_started steps now;
    }

-- `u32::try_from(bytes.saturating_add(PACKET_OVERHEAD)).unwrap_or(u32::MAX)`
abbrev pub bill : ℕ → ℕ
bill bytes = min (min (bytes + packet_overhead) usize_max) u32_max

-- What an admitted packet leaves.
admit : VoiceBudget → ℕ → ℕ → VoiceBudget
unfolding roll
admit b now bytes =
    let r = roll (record b { tokens = b.tokens - 1 }) now in
    record r {
      billed = set r.billed r.bucket (saturating_add (get_or r.billed r.bucket 0) (bill bytes));
      last_active = now;
    }

unfoldable pub allow : VoiceBudget → ℕ → ℕ → VoiceBudget × Bool
unfolding refill admit
allow b now bytes =
    let r = refill b now in if r.tokens == 0 then (r, false) else (admit r now bytes, true)

unfoldable pub touch : VoiceBudget → ℕ → VoiceBudget
touch b now = record b { last_active = now }

total : List ℕ → ℕ → ℕ
total [] sum = sum
total (x ∷ xs) sum = total xs (saturating_add sum x)

unfoldable pub bandwidth : VoiceBudget → ℕ → VoiceBudget × ℕ
unfolding roll total
bandwidth b now = let r = roll b now in (r, total r.billed 0)

unfoldable pub idle : VoiceBudget → ℕ → ℕ
idle b now = now - b.last_active

unfoldable pub is_acceptable_size : ℕ → Bool
is_acceptable_size len = leb min_udp_packet_size len && leb len max_udp_packet_size

abbrev messages_per_second : ℕ
messages_per_second = 1

abbrev pub message_burst : ℕ
message_burst = 5

pub record TextBudget : Type 0 where
  pub tokens : ℕ
  pub last_refill : ℕ

unfoldable pub new_text : ℕ → TextBudget
new_text now = record { tokens = message_burst; last_refill = now }

-- `if let Ok(earned) = u32::try_from(earned) && earned > 0`
refill_text : TextBudget → ℕ → TextBudget
refill_text b now =
    let earned = accrued (now - b.last_refill) messages_per_second in
    if leb earned u32_max && ltb 0 earned
    then record { tokens = min (saturating_add b.tokens earned) message_burst; last_refill = now }
    else b

unfoldable pub allow_text : TextBudget → ℕ → TextBudget × Bool
unfolding refill_text
allow_text b now =
    let r = refill_text b now in
    if r.tokens == 0 then (r, false) else (record r { tokens = r.tokens - 1 }, true)
