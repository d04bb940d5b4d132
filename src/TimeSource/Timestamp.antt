-- ===== src/TimeSource/Timestamp.antt =====
-- What a timestamp of the responder says: its two halves, its precision and its order.
use bladerunner.Prelude.{
  ap, arith, negsuc, pos, suc, ℕ, ℤ, ◌%◌, ◌*◌, ◌+◌, ◌/◌, ◌<◌, ◌^◌, ◌↔◌, ◌∙◌, ◌≡◌, ◌≤◌, ◌⊎◌,
}
use bladerunner.Prelude.Bits.{bit_or_disjoint}
use Prim.Native.Nat.{bit_or}
use bladerunner.TimeSource.{Time, epoch_offset, nanos_per_second, seconds, fraction, to_ntp}

fraction-lt : (n : ℕ) → n < nanos_per_second → fraction n < 2 ^ 32
unfolding fraction
fraction-lt n h = omega arith

word_halves : (s f : ℕ) → f < 2 ^ 32 → bit_or (s * 2 ^ 32 % 2 ^ 64) f ≡ s % 2 ^ 32 * 2 ^ 32 + f
word_halves s f h =
    let top : s * 2 ^ 32 % 2 ^ 64 ≡ s % 2 ^ 32 * 2 ^ 32 = omega arith in
    ap (λ (k : ℕ). bit_or k f) top ∙ bit_or_disjoint 32 (s % 2 ^ 32) f h

pub to_ntp-halves :
    (t : Time)
    → t.nanosecond < nanos_per_second
    → to_ntp t ≡ seconds t.unix % 2 ^ 32 * 2 ^ 32 + fraction t.nanosecond
unfolding to_ntp
to_ntp-halves t h =
    word_halves (seconds t.unix) (fraction t.nanosecond) (fraction-lt t.nanosecond h)

pub to_ntp-lt : (t : Time) → t.nanosecond < nanos_per_second → to_ntp t < 2 ^ 64
to_ntp-lt t h = let e = to_ntp-halves t h in let f = fraction-lt t.nanosecond h in omega arith

-- `s` seconds after the start of 1900, as a Unix time
abbrev SinceEpoch : ℤ → ℕ → Type 0
SinceEpoch (pos n) s = s ≡ n + epoch_offset
SinceEpoch (negsuc n) s = s + suc n ≡ epoch_offset

-- The time is `s` whole seconds after the start of 1900.
abbrev pub Since1900 : Time → ℕ → Type 0
Since1900 t s = SinceEpoch t.unix s

seconds-since : (z : ℤ) (s : ℕ) → SinceEpoch z s → seconds z % 2 ^ 32 ≡ s % 2 ^ 32
unfolding seconds
seconds-since (pos k) s h = omega arith
seconds-since (negsuc k) s h = omega arith

-- The responder's timestamp of a time since 1900 is a word of 64 bits. Its upper half is the
-- number of seconds since 1900 within the NTP era of 2^32 seconds, its lower half the part of the
-- second in units of 2^-32, rounded down: less than one unit is lost.
pub to_ntp-bounds :
    (t : Time) (s : ℕ)
    → Since1900 t s
    → t.nanosecond < nanos_per_second
    → (to_ntp t < 2 ^ 64)
      × (to_ntp t / 2 ^ 32 ≡ s % 2 ^ 32)
      × (to_ntp t % 2 ^ 32 * nanos_per_second ≤ t.nanosecond * 2 ^ 32)
      × (t.nanosecond * 2 ^ 32 < suc (to_ntp t % 2 ^ 32) * nanos_per_second)
unfolding fraction
to_ntp-bounds t s since h =
    let e = to_ntp-halves t h in
    let k = seconds-since t.unix s since in (omega arith, omega arith, omega arith, omega arith)

-- Of two times since 1900 in the same NTP era the earlier one, to the nanosecond, has the smaller
-- timestamp, and the other way round.
pub to_ntp-order :
    (t u : Time) (s r : ℕ)
    → Since1900 t s
    → Since1900 u r
    → t.nanosecond < nanos_per_second
    → u.nanosecond < nanos_per_second
    → s / 2 ^ 32 ≡ r / 2 ^ 32
    → (to_ntp t < to_ntp u) ↔ ((s < r) ⊎ ((s ≡ r) × (t.nanosecond < u.nanosecond)))
unfolding fraction
to_ntp-order t u s r st su ht hu era =
    let e = to_ntp-halves t ht in
    let d = to_ntp-halves u hu in
    let k = seconds-since t.unix s st in let j = seconds-since u.unix r su in ground arith
