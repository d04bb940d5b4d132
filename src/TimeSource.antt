-- ===== src/TimeSource.antt =====
-- The SNTP responder (internal/timesource/sntp.go): one request of 48 bytes, one reply. The bytes
-- that a peer sends before it closes or the deadline passes are a list; a buffer of a fixed size is
-- a list of that length, and the reply is written field by field from its first byte on.
pub mod Timestamp
pub mod Reply
pub mod Tests
use bladerunner.Prelude.{
  &&-eq-true, ==_iff, ==_refl, >>-eq-ok, >>=-eq-ok, All, All-append, AtLeast, AtMost, Bool,
  Bool-cases, Check, IsDigit, List, Option, Option-cases, Result, String, Text, [], ap, append-nil,
  append_assoc, arith, atoi, atoi-decimal, codes, contains, cut_byte, cut_prefix, decimal,
  decimal-cons, decimal-digits, drop, drop-length-append, err, fail_if, fail_if-eq-ok, false,
  fun_ext, get_elem?, has_prefix, has_suffix, if◌then◌else◌, in_int64, inl, inr, int_eq, int_eq_iff,
  int_gt, int_gt_iff, int_lt, int_lt_iff, is_empty, is_ok, is_ok_unit, is_space, itoa, leb, length,
  length-append, length-drop, length-take, ltb, map, map_err, min, ne_text_eq, negsuc, none, not,
  ok, ok-injective, parse_digits, parse_nat, pos, refl, replicate, reverse, some, subst, suc, sym,
  take, take-length-append, text_eq, text_eq_iff, text_eq_ne, text_eq_refl, to_lower, to_lower_byte,
  trim_left, trim_right, trim_space, true, zero, ||-eq-false, ℕ, ℤ, ◌%◌, ◌&&◌, ◌*◌, ◌++◌, ◌+◌, ◌-◌,
  ◌/◌, ◌<◌, ◌==◌, ◌>>=◌, ◌>>◌, ◌^◌, ◌||◌, ◌↔◌, ◌∙◌, ◌∷◌, ◌≡◌, ◌≢◌, ◌≤◌, ◌⊎◌,
}
use Prim.Native.Nat.{bit_and, bit_or}

abbrev pub epoch_offset : ℕ
epoch_offset = 2208988800

abbrev pub nanos_per_second : ℕ
nanos_per_second = 1000000000

-- time.Time, by its Unix() and its Nanosecond()
pub record Time : Type 0 where
  pub unix : ℤ
  pub nanosecond : ℕ

-- uint64(t.Unix() + ntpUnixEpochOffset)
unfoldable pub seconds : ℤ → ℕ
seconds (pos n) = (n + epoch_offset) % 2 ^ 64
seconds (negsuc n) = (2 ^ 64 + epoch_offset - suc n) % 2 ^ 64

-- (uint64(t.Nanosecond()) << 32) / nanosPerSecond
unfoldable pub fraction : ℕ → ℕ
fraction nanosecond = nanosecond * 2 ^ 32 % 2 ^ 64 / nanos_per_second

-- toNTP
unfoldable pub to_ntp : Time → ℕ
unfolding seconds fraction
to_ntp t = bit_or (seconds t.unix * 2 ^ 32 % 2 ^ 64) (fraction t.nanosecond)

-- binary.BigEndian.PutUint64
unfoldable pub put_uint64 : ℕ → Text
put_uint64 v =
    v / 2 ^ 56 % 256
    ∷ v / 2 ^ 48 % 256
    ∷ v / 2 ^ 40 % 256
    ∷ v / 2 ^ 32 % 256
    ∷ v / 2 ^ 24 % 256
    ∷ v / 2 ^ 16 % 256
    ∷ v / 2 ^ 8 % 256
    ∷ v % 256
    ∷ []

-- The byte at an index of a buffer.
abbrev pub byte_at : Text → ℕ → ℕ
byte_at [] _ = 0
byte_at (c ∷ s) zero = c
byte_at (c ∷ s) (suc n) = byte_at s n

-- LI = 0, the version of the request, mode = 4
unfoldable pub first_byte : ℕ → ℕ
first_byte req0 = bit_or (bit_and (req0 / 2 ^ 3) 7 * 2 ^ 3 % 256) 4

-- buildReply
unfoldable pub build_reply : Text → Time → Text
unfolding first_byte put_uint64 to_ntp
build_reply req now =
    (first_byte (byte_at req 0) ∷ 1 ∷ byte_at req 2 ∷ 0xec ∷ [])
    ++ replicate 8 0
    ++ codes "BLDR"
    ++ put_uint64 (to_ntp now)
    ++ (take 8 (drop 40 req) ++ (put_uint64 (to_ntp now) ++ put_uint64 (to_ntp now)))

pub data ServeError : Type 0 where
  short_read write_failed : ServeError

pub record Exchange : Type 0 where
  pub result : Check ServeError
  pub bytes_sent : Text

-- conn.Write of the reply, where the peer may have gone
unfoldable pub write_reply : Bool → Text → Exchange
write_reply true reply = record { result = ok tt; bytes_sent = reply }
write_reply false reply = record { result = err write_failed; bytes_sent = [] }

-- serveOne
unfoldable pub serve_one : Time → Bool → Text → Exchange
unfolding build_reply write_reply
serve_one now writes sent =
    if ltb (length sent) 48
    then record { result = err short_read; bytes_sent = [] }
    else write_reply writes (build_reply (take 48 sent) now)
