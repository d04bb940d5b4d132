-- ===== src/TimeSource/Reply.antt =====
-- What a client reads in the reply to its request.
use bladerunner.Prelude.{
  All, All-append, Bool, Bool-cases, Text, [], ap, append_assoc, arith, codes, drop,
  drop-length-append, err, false, inl, inr, length, length-append, length-drop, length-take, ltb,
  ok, refl, replicate, subst, suc, sym, take, take-length-append, true, zero, ℕ, ◌%◌, ◌*◌, ◌++◌,
  ◌+◌, ◌/◌, ◌<◌, ◌^◌, ◌∙◌, ◌∷◌, ◌≡◌, ◌≤◌, ◌⊎◌,
}
use bladerunner.Prelude.Bits.{bit_or_disjoint, bit_and_seven}
use Prim.Native.Nat.{bit_and, bit_or}
use bladerunner.TimeSource.{
  Time, nanos_per_second, to_ntp, put_uint64, byte_at, first_byte, build_reply, short_read,
  write_failed, write_reply, serve_one,
}
use bladerunner.TimeSource.Timestamp.{to_ntp-lt}

abbrev pub IsByte : ℕ → Type 0
IsByte c = c < 256

abbrev uint64_onto : ℕ → Text → ℕ
uint64_onto acc [] = acc
uint64_onto acc (c ∷ s) = uint64_onto (acc * 256 + c) s

-- The number that 8 bytes at an index stand for, big-endian.
abbrev pub uint64_at : ℕ → Text → ℕ
uint64_at n s = uint64_onto 0 (take 8 (drop n s))

uint64-put : (v : ℕ) → v < 2 ^ 64 → uint64_onto 0 (put_uint64 v) ≡ v
unfolding put_uint64
uint64-put v h = omega arith

first_byte-value : (c : ℕ) → first_byte c ≡ c / 8 % 8 * 8 + 4
unfolding first_byte
first_byte-value c =
    let mask = bit_and_seven (c / 8) in
    let top : bit_and (c / 2 ^ 3) 7 * 2 ^ 3 % 256 ≡ c / 8 % 8 * 2 ^ 3 = omega arith in
    ap (λ (k : ℕ). bit_or k 4) top ∙ bit_or_disjoint 3 (c / 8 % 8) 4 (omega arith)

put-bytes : (v : ℕ) → All IsByte (put_uint64 v)
unfolding put_uint64
put-bytes v = (
  omega arith,
  (
    omega arith,
    (omega arith, (omega arith, (omega arith, (omega arith, (omega arith, (omega arith, tt)))))),
  ),
)

-- What RFC 5905 asks of a server's reply: 48 bytes, no leap warning, mode 4 and the version of the
-- request, stratum 1, the request's transmit timestamp as the origin, and the time three times.
abbrev pub IsReplyTo : Text → ℕ → Text → Type 0
IsReplyTo req ntp reply =
    (length reply ≡ 48)
    × All IsByte reply
    × (byte_at reply 0 ≡ byte_at req 0 / 8 % 8 * 8 + 4)
    × (byte_at reply 1 ≡ 1)
    × (byte_at reply 2 ≡ byte_at req 2)
    × (take 8 (drop 24 reply) ≡ take 8 (drop 40 req))
    × (uint64_at 16 reply ≡ ntp)
    × (uint64_at 32 reply ≡ ntp)
    × (uint64_at 40 reply ≡ ntp)

All-take-drop : (m n : ℕ) (s : Text) → All IsByte s → All IsByte (take m (drop n s))
All-take-drop zero n s h = tt
All-take-drop (suc m) (suc n) (c ∷ s) h = All-take-drop (suc m) n s h.1
All-take-drop (suc m) (suc n) [] h = tt
All-take-drop (suc m) zero [] h = tt
All-take-drop (suc m) zero (c ∷ s) h = (h.0, All-take-drop m zero s h.1)

byte_at-IsByte : (s : Text) (n : ℕ) → All IsByte s → IsByte (byte_at s n)
byte_at-IsByte [] n h = omega arith
byte_at-IsByte (c ∷ s) zero h = h.0
byte_at-IsByte (c ∷ s) (suc n) h = byte_at-IsByte s n h.1

-- The reply behind its first 24 bytes, with the origin `o`.
abbrev tail : Text → ℕ → Text
tail o v = o ++ (put_uint64 v ++ put_uint64 v)

length-put : (v : ℕ) → length (put_uint64 v) ≡ 8
unfolding put_uint64
length-put v = refl

take-append : (n : ℕ) (a b : Text) → length a ≡ n → take n (a ++ b) ≡ a
take-append n a b h = subst (λ (k : ℕ). take k (a ++ b) ≡ a) h (take-length-append a b)

drop-append : (n : ℕ) (a b : Text) → length a ≡ n → drop n (a ++ b) ≡ b
drop-append n a b h = subst (λ (k : ℕ). drop k (a ++ b) ≡ b) h (drop-length-append a b)

take-put : (v : ℕ) → take 8 (put_uint64 v) ≡ put_uint64 v
unfolding put_uint64
take-put v = refl

get-first : (o : Text) (v : ℕ) → length o ≡ 8 → v < 2 ^ 64 → uint64_at 8 (tail o v) ≡ v
get-first o v h l =
    ap (λ (k : Text). uint64_onto 0 (take 8 k)) (drop-append 8 o (put_uint64 v ++ put_uint64 v) h)
    ∙ ap (uint64_onto 0) (take-append 8 (put_uint64 v) (put_uint64 v) (length-put v))
    ∙ uint64-put v l

get-second : (o : Text) (v : ℕ) → length o ≡ 8 → v < 2 ^ 64 → uint64_at 16 (tail o v) ≡ v
get-second o v h l =
    let long : length (o ++ put_uint64 v) ≡ 16 =
      omega (arith, length-append o (put_uint64 v), length-put v) in
    ap (λ (k : Text). uint64_onto 0 (take 8 (drop 16 k)))
      (sym (append_assoc o (put_uint64 v) (put_uint64 v)))
    ∙ ap (λ (k : Text). uint64_onto 0 (take 8 k))
        (drop-append 16 (o ++ put_uint64 v) (put_uint64 v) long)
    ∙ ap (uint64_onto 0) (take-put v)
    ∙ uint64-put v l

tail-bytes : (o : Text) (v : ℕ) → All IsByte o → All IsByte (tail o v)
tail-bytes o v h =
    All-append IsByte o (put_uint64 v ++ put_uint64 v) h
      (All-append IsByte (put_uint64 v) (put_uint64 v) (put-bytes v) (put-bytes v))

length-tail : (o : Text) (v : ℕ) → length (tail o v) ≡ length o + 16
length-tail o v = omega (
  arith,
  length-append o (put_uint64 v ++ put_uint64 v),
  length-append (put_uint64 v) (put_uint64 v),
  length-put v,
)

-- The first 16 bytes, of which three vary.
abbrev front : ℕ → ℕ → Text
front a b = (a ∷ 1 ∷ b ∷ 0xec ∷ []) ++ replicate 8 0 ++ codes "BLDR"

front-bytes : (a b : ℕ) → IsByte a → IsByte b → All IsByte (front a b)
front-bytes a b h k = ground arith

build_reply-IsReplyTo :
    (req : Text) (now : Time)
    → length req ≡ 48
    → All IsByte req
    → now.nanosecond < nanos_per_second
    → IsReplyTo req (to_ntp now) (build_reply req now)
unfolding build_reply
build_reply-IsReplyTo req now h bytes fine =
    let v = to_ntp now in
    let o = take 8 (drop 40 req) in
    let lt = to_ntp-lt now fine in
    let eight : length o ≡ 8 = omega (arith, length-take 8 (drop 40 req), length-drop 40 req) in
    (
      omega (arith, length-tail o v),
      All-append IsByte (front (first_byte (byte_at req 0)) (byte_at req 2) ++ put_uint64 v)
          (tail o v)
          (All-append IsByte (front (first_byte (byte_at req 0)) (byte_at req 2)) (put_uint64 v)
            (front-bytes (first_byte (byte_at req 0)) (byte_at req 2)
              (omega (arith, first_byte-value (byte_at req 0))) (byte_at-IsByte req 2 bytes))
            (put-bytes v))
          (tail-bytes o v (All-take-drop 8 40 req bytes)),
      first_byte-value (byte_at req 0),
      refl,
      refl,
      take-append 8 o (put_uint64 v ++ put_uint64 v) eight,
      ap (uint64_onto 0) (take-put v) ∙ uint64-put v lt,
      get-first o v eight lt,
      get-second o v eight lt,
    )

write_reply-cases :
    (req : Text) (ntp : ℕ) (writes : Bool) (reply : Text)
    → IsReplyTo req ntp reply
    → ((writes ≡ false)
        × (write_reply writes reply ≡ record { result = err write_failed; bytes_sent = [] }))
      ⊎ ((writes ≡ true)
          × ((write_reply writes reply).result ≡ ok tt)
          × IsReplyTo req ntp (write_reply writes reply).bytes_sent)
unfolding write_reply
write_reply-cases req ntp false reply h = inl (refl, refl)
write_reply-cases req ntp true reply h = inr (refl, refl, h)

-- The responder at work, for bytes that a peer sends and a time that is normal. Fewer than 48 bytes
-- are an error, and nothing is written. From 48 bytes on, whatever follows them, the answer to the
-- first 48 is written, or nothing and an error where the write fails. An answer has 48 bytes, each
-- below 256; its mode is that of a server, its version and its poll are those of the request, its
-- stratum is 1, its origin is the request's transmit timestamp verbatim, and its reference, receive
-- and transmit timestamps read big-endian are the timestamp of the time.
pub serve_one-IsServed :
    (now : Time) (writes : Bool) (sent : Text)
    → All IsByte sent
    → now.nanosecond < nanos_per_second
    → ((length sent < 48)
        × (serve_one now writes sent ≡ record { result = err short_read; bytes_sent = [] }))
      ⊎ ((48 ≤ length sent)
          × (((writes ≡ false)
                × (serve_one now writes sent
                    ≡ record { result = err write_failed; bytes_sent = [] }))
              ⊎ ((writes ≡ true)
                  × ((serve_one now writes sent).result ≡ ok tt)
                  × IsReplyTo (take 48 sent) (to_ntp now) (serve_one now writes sent).bytes_sent)))
unfolding serve_one
serve_one-IsServed now writes sent bytes fine = elim (Bool-cases (ltb (length sent) 48)) [
  | inl short ↦ inl (ground arith, (rw short refl))
  | inr long ↦ inr (
    ground arith,
    (rw long (
        write_reply-cases (take 48 sent) (to_ntp now) writes (build_reply (take 48 sent) now) (
          build_reply-IsReplyTo (take 48 sent) now (ground (arith, length-take 48 sent))
            (All-take-drop 48 0 sent bytes) fine))),
  )
]
