-- ===== src/Control/Wire/RoundTrip.antt =====
-- What one end of the control socket writes, the other end reads back (wire.go).
use bladerunner.Prelude.{
  ==_refl, All, All-append, Bool, IsDigit, Text, [], ap, append_assoc, arith, atoi, atoi-decimal,
  cut_byte, cut_prefix, decimal, decimal-cons, decimal-digits, false, if◌then◌else◌, is_empty,
  is_space, itoa, ltb, none, not, pos, refl, reverse, some, subst, sym, trim_left, trim_right,
  trim_space, true, ℕ, ℤ, ◌++◌, ◌<◌, ◌^◌, ◌∙◌, ◌∷◌, ◌≡◌, ◌≢◌, ◌≤◌,
}
use mathlib.Core.List.{reverse-append, reverse-reverse}
use bladerunner.Control.{Message}
use bladerunner.Control.Wire.{
  error_prefix, body, versioned, encode, version_at, split_version, parse_body, decode_line, decode,
}

abbrev pub IsNot : ℕ → ℕ → Type 0
IsNot b c = c ≢ b

pub cut_byte-append :
    (b : ℕ) (u v : Text) → All (IsNot b) u → cut_byte b (u ++ (b ∷ v)) ≡ some (u, v)
unfolding cut_byte
cut_byte-append b [] v h = ground arith
cut_byte-append b (c ∷ u) v h = ground (arith, cut_byte-append b u v h.1)

-- A text whose last byte is no white space.
abbrev pub ends_in_word : Text → Bool
ends_in_word [] = false
ends_in_word (c ∷ []) = not (is_space c)
ends_in_word (c ∷ d ∷ s) = ends_in_word (d ∷ s)

last_of :
    (s : Text)
    → ends_in_word s ≡ true
    → (u : Text) × (c : ℕ) × (s ≡ u ++ (c ∷ [])) × (is_space c ≡ false)
last_of [] h = cc
last_of (c ∷ []) h = ([], c, refl, ground arith)
last_of (c ∷ d ∷ s) h = let (u, e, p, q) = last_of (d ∷ s) h in (c ∷ u, e, ap (◌∷◌ c) p, q)

trim_left-word : (c : ℕ) (s : Text) → is_space c ≡ false → trim_left is_space (c ∷ s) ≡ c ∷ s
unfolding trim_left
trim_left-word c s h = ground arith

trim_right-last :
    (u : Text) (c : ℕ) → is_space c ≡ false → trim_right is_space (u ++ (c ∷ [])) ≡ u ++ (c ∷ [])
unfolding trim_right
trim_right-last u c h =
    let back : reverse (u ++ (c ∷ [])) ≡ c ∷ reverse u = reverse-append u (c ∷ []) in
    ap (λ (r : Text). reverse (trim_left is_space r)) back
    ∙ ap (λ (r : Text). reverse r) (trim_left-word c (reverse u) h)
    ∙ sym (ap (λ (r : Text). reverse r) back)
    ∙ reverse-reverse (u ++ (c ∷ []))

pub trim_space-word :
    (c : ℕ) (s : Text)
    → is_space c ≡ false
    → ends_in_word (c ∷ s) ≡ true
    → trim_space (c ∷ s) ≡ c ∷ s
unfolding trim_space
trim_space-word c s h e =
    let (u, d, p, q) = last_of (c ∷ s) e in
    ap (λ (r : Text). trim_right is_space r) (trim_left-word c s h)
    ∙ subst (λ (r : Text). trim_right is_space r ≡ r) (sym p) (trim_right-last u d q)

pub ends_in_word-append : (u v : Text) → ends_in_word v ≡ true → ends_in_word (u ++ v) ≡ true
ends_in_word-append [] v h = h
ends_in_word-append (c ∷ []) [] h = cc
ends_in_word-append (c ∷ []) (d ∷ v) h = h
ends_in_word-append (c ∷ d ∷ u) v h = ends_in_word-append (d ∷ u) v h

pub digits_avoid : (b : ℕ) (s : Text) → (b < 48) → All IsDigit s → All (IsNot b) s
digits_avoid b [] h d = tt
digits_avoid b (c ∷ s) h d = ((λ e. omega (arith, d.0)), digits_avoid b s h d.1)

split_version-at :
    (s number rest : Text) (v : ℤ)
    → ((d : ℕ) × (t : Text) × (s ≡ d ∷ t))
    → cut_byte b' ' s ≡ some (number, rest)
    → atoi number ≡ some v
    → split_version (b'v' ∷ s) ≡ (v, rest)
unfolding split_version version_at
split_version-at [] number rest v (d, t, e) h p = cc
split_version-at (d ∷ t) number rest v e h p = rw h (rw (p, version_at) refl)

-- "v1 line" is read as version 1 and the line.
pub split_version-versioned :
    (n : ℕ) (line : Text)
    → n < 2 ^ 63
    → split_version (b'v' ∷ (decimal n ++ (b' ' ∷ line))) ≡ (pos n, line)
split_version-versioned n line h =
    let (c, s, e) = decimal-cons n in
    split_version-at (decimal n ++ (b' ' ∷ line)) (decimal n) line (pos n)
      (c, s ++ (b' ' ∷ line), rw e refl)
      (cut_byte-append b' ' (decimal n) line
        (digits_avoid b' ' (decimal n) (omega arith) (decimal-digits n)))
      (atoi-decimal n h)

-- What the other end makes of a message of version `n` whose line is `line`: the context tells a
-- command from a response, so both fields hold it.
abbrev pub received : ℕ → Message → Text → Message
received n m line =
    if is_empty m.error
    then record { version = pos n; command = line; response = line; error = [] }
    else record { version = pos n; command = []; response = []; error = m.error }

cut_prefix-append : (p s : Text) → cut_prefix (p ++ s) p ≡ some s
unfolding cut_prefix
cut_prefix-append [] s = refl
cut_prefix-append (c ∷ p) s = rw (==_refl c) (cut_prefix-append p s)

parse_body-received :
    (n : ℕ) (m : Message) (line : Text)
    → body m ≡ some line
    → (is_empty m.error ≡ true → cut_prefix line error_prefix ≡ none)
    → parse_body (pos n) line ≡ received n m line
unfolding parse_body body
parse_body-received n m line b plain = ground (arith, cut_prefix-append error_prefix m.error)

-- The version and the line, without the newline.
abbrev line_of : ℕ → Text → Text
line_of n line = b'v' ∷ (decimal n ++ (b' ' ∷ line))

versioned-pos : (n : ℕ) (line : Text) → 1 ≤ n → versioned (pos n) line ≡ line_of n line
unfolding versioned itoa
versioned-pos n line h = let newer : ltb 0 n ≡ true = ground arith in rw newer refl

encode-body :
    (m : Message) (line : Text)
    → body m ≡ some line
    → encode m ≡ some (versioned m.version line ++ (b'\n' ∷ []))
unfolding encode
encode-body m line b = rw (b, encode) refl

pub encode-versioned :
    (n : ℕ) (m : Message) (line : Text)
    → 1 ≤ n
    → m.version ≡ pos n
    → body m ≡ some line
    → encode m ≡ some (line_of n line ++ (b'\n' ∷ []))
encode-versioned n m line h v b =
    encode-body m line b
    ∙ ap (λ (z : ℤ). some (versioned z line ++ (b'\n' ∷ []))) v
    ∙ ap (λ (t : Text). some (t ++ (b'\n' ∷ []))) (versioned-pos n line h)

decode_line-versioned :
    (n : ℕ) (line after : Text)
    → n < 2 ^ 63
    → ends_in_word line ≡ true
    → decode_line (some (line_of n line, after)) ≡ some (parse_body (pos n) line)
unfolding decode_line
decode_line-versioned n line after small word =
    let trimmed : trim_space (line_of n line) ≡ line_of n line =
      trim_space-word b'v' (decimal n ++ (b' ' ∷ line)) refl (
        subst (λ (t : Text). ends_in_word t ≡ true)
          (ap (◌∷◌ b'v') (append_assoc (decimal n) (b' ' ∷ []) line))
          (ends_in_word-append (b'v' ∷ (decimal n ++ (b' ' ∷ []))) line word)) in
    rw trimmed (rw (split_version-versioned n line small) refl)

line_of-bytes : (n : ℕ) (line : Text) → All (IsNot b'\n') line → All (IsNot b'\n') (line_of n line)
line_of-bytes n line h = (
  (λ e. omega arith),
  All-append (IsNot b'\n') (decimal n) (b' ' ∷ line)
      (digits_avoid b'\n' (decimal n) (omega arith) (decimal-digits n)) ((λ e. omega arith), h),
)

-- A message of version 1 to 2^63 - 1 whose line has no newline and ends in no white space, and
-- starts with "error: " only if it is an error, is encoded; and whatever bytes follow in the
-- stream, decoding gives the message back: its version with its error, or with the line as both
-- command and response.
pub decode-encode :
    (n : ℕ) (m : Message) (line after : Text)
    → 1 ≤ n
    → n < 2 ^ 63
    → m.version ≡ pos n
    → body m ≡ some line
    → All (IsNot b'\n') line
    → ends_in_word line ≡ true
    → (is_empty m.error ≡ true → cut_prefix line error_prefix ≡ none)
    → (bytes : Text) × (encode m ≡ some bytes)
      × (decode (bytes ++ after) ≡ some (received n m line))
unfolding decode
decode-encode n m line after one small v b no_newline word plain = (
  line_of n line ++ (b'\n' ∷ []),
  encode-versioned n m line one v b,
  ap decode (append_assoc (line_of n line) (b'\n' ∷ []) after)
      ∙ ap decode_line
          (cut_byte-append b'\n' (line_of n line) after (line_of-bytes n line no_newline))
      ∙ decode_line-versioned n line after small word
      ∙ ap some (parse_body-received n m line b plain),
)
