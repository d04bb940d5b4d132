-- ===== src/TimeSource/Tests.antt =====
-- A request of NTP version 4 at one time in 2024, and the theorems at it.
use bladerunner.Prelude.{
  All, Text, [], arith, err, false, length, negsuc, ok, pos, refl, replicate, suc, take, true, ℕ,
  ◌%◌, ◌*◌, ◌++◌, ◌/◌, ◌<◌, ◌^◌, ◌↔◌, ◌∷◌, ◌≡◌, ◌≤◌, ◌⊎◌,
}
use bladerunner.TimeSource.{
  Time, nanos_per_second, to_ntp, seconds, fraction, serve_one, short_read, write_failed,
}
use bladerunner.TimeSource.Timestamp.{to_ntp-bounds, to_ntp-order}
use bladerunner.TimeSource.Reply.{IsByte, IsReplyTo, serve_one-IsServed}

abbrev half_past : Time
half_past = record { unix = pos 1704067200; nanosecond = 500000000 }

abbrev nanosecond_later : Time
nanosecond_later = record { unix = pos 1704067200; nanosecond = 500000001 }

half_past-to_ntp : to_ntp half_past ≡ 0xe93c7f0080000000
unfolding to_ntp seconds fraction
half_past-to_ntp = refl

-- The first second of the next era
next_era : to_ntp (record { unix = pos 2085978496; nanosecond = 0 }) ≡ 0
unfolding to_ntp seconds fraction
next_era = refl

before_1970 : to_ntp (record { unix = negsuc 0; nanosecond = 0 }) ≡ 2208988799 * 2 ^ 32
unfolding to_ntp seconds fraction
before_1970 = refl

abbrev request : Text
request = 0x23 ∷ 0 ∷ 6 ∷ replicate 37 0 ++ (1 ∷ 2 ∷ 3 ∷ 4 ∷ 5 ∷ 6 ∷ 7 ∷ 8 ∷ 9 ∷ [])

request-bytes : All IsByte request
request-bytes = ground arith

to_ntp-bounds_example :
    (to_ntp half_past < 2 ^ 64)
    × (to_ntp half_past / 2 ^ 32 ≡ 3913056000 % 2 ^ 32)
    × (to_ntp half_past % 2 ^ 32 * nanos_per_second ≤ half_past.nanosecond * 2 ^ 32)
    × (half_past.nanosecond * 2 ^ 32 < suc (to_ntp half_past % 2 ^ 32) * nanos_per_second)
to_ntp-bounds_example = to_ntp-bounds half_past 3913056000 refl (omega arith)

to_ntp-order_example : (to_ntp half_past < to_ntp nanosecond_later) ↔ (
    (3913056000 < 3913056000)
    ⊎ ((◌≡◌ {A = ℕ} 3913056000 3913056000) × (half_past.nanosecond < nanosecond_later.nanosecond)))
to_ntp-order_example =
    to_ntp-order half_past nanosecond_later 3913056000 3913056000 refl refl (omega arith)
      (omega arith) refl

serve_one-IsServed_example :
    ((length request < 48)
      × (serve_one half_past true request ≡ record { result = err short_read; bytes_sent = [] }))
    ⊎ ((48 ≤ length request)
        × (((true ≡ false)
              × (serve_one half_past true request
                  ≡ record { result = err write_failed; bytes_sent = [] }))
            ⊎ ((true ≡ true)
                × ((serve_one half_past true request).result ≡ ok tt)
                × IsReplyTo
                    (take 48 request)
                    (to_ntp half_past)
                    (serve_one half_past true request).bytes_sent)))
serve_one-IsServed_example = serve_one-IsServed half_past true request request-bytes (omega arith)
