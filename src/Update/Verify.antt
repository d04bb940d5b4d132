-- ===== src/Update/Verify.antt =====
-- minisign signatures of updates (internal/update/verify.go). Base64, BLAKE2b and Ed25519 are the
-- parameter `Crypto`.
use bladerunner.Prelude.{
  Bool, Check, List, Option, Result, Text, [], codes, drop, err, fail_if, false, has_prefix,
  if◌then◌else◌, is_empty, length, ltb, none, not, ok, some, split_lines, suc, take, text_eq,
  trim_space, true, zero, ℕ, ◌&&◌, ◌++◌, ◌==◌, ◌>>=◌, ◌>>◌, ◌∷◌,
}

pub record Crypto : Type 0 where
  pub base64 : Text → Option Text
  pub blake2b : Text → Text
  pub ed25519 : Text → Text → Text → Bool

pub data VerifyError : Type 0 where
  key_malformed key_undecodable key_wrong_length key_algorithm : VerifyError
  sig_undecodable sig_malformed record_undecodable record_wrong_length : VerifyError
  no_trusted_comment global_undecodable global_wrong_length sig_algorithm : VerifyError
  key_id_mismatch bad_signature : VerifyError

pub record PublicKey : Type 0 where
  pub key_id : Text
  pub key : Text

pub record Signature : Type 0 where
  pub prehashed : Bool
  pub key_id : Text
  pub sig : Text
  pub trusted_comment : Text
  pub global_sig : Text

abbrev starts_line : Text → Bool
starts_line [] = false
starts_line (c ∷ _) = c == 10

-- strings.ReplaceAll(s, "\r\n", "\n")
unfoldable pub unix_lines : Text → Text
unix_lines [] = []
unix_lines (c ∷ s) = let rest = unix_lines s in if c == 13 && starts_line s then rest else c ∷ rest

unfoldable pub drop_blank : List Text → List Text
unfolding trim_space
drop_blank [] = []
drop_blank (l ∷ ls) = let rest = drop_blank ls in if is_empty (trim_space l) then rest else l ∷ rest

-- splitLines
unfoldable pub text_lines : Text → List Text
unfolding unix_lines drop_blank split_lines
text_lines s = drop_blank (split_lines (unix_lines s))

-- The line at an index that the length of the list allows
abbrev line_at : ℕ → List Text → Text
line_at n [] = []
line_at zero (l ∷ ls) = l
line_at (suc n) (l ∷ ls) = line_at n ls

abbrev pub required {ℓ} : {A : Type ℓ} → Option A → VerifyError → Result VerifyError A
required none e = err e
required (some a) e = ok a

abbrev pub alg_legacy : Text
alg_legacy = codes "Ed"

abbrev pub alg_prehashed : Text
alg_prehashed = codes "ED"

-- The payload line of a key text, which the decoded form may be
unfoldable pub key_payload : Text → Option Text → Result VerifyError Text
unfolding has_prefix text_lines
key_payload payload none = ok payload
key_payload payload (some text) =
    if has_prefix text (codes "untrusted comment:")
    then (if ltb (length (text_lines text)) 2
        then err key_malformed
        else ok (line_at 1 (text_lines text)))
    else ok payload

unfoldable pub key_of_record : Text → Result VerifyError PublicKey
unfolding text_eq
key_of_record bin = do
  fail_if (not (length bin == 42)) key_wrong_length
  fail_if (not (text_eq (take 2 bin) alg_legacy) && not (text_eq (take 2 bin) alg_prehashed))
      key_algorithm
  ok (record { key_id = take 8 (drop 2 bin); key = take 32 (drop 10 bin) })

-- parsePublicKey
unfoldable pub parse_public_key : Crypto → Text → Result VerifyError PublicKey
unfolding trim_space key_payload key_of_record
parse_public_key c pub_key = do
  payload ← key_payload (trim_space pub_key) (c.base64 (trim_space pub_key))
  bin ← required (c.base64 payload) key_undecodable
  key_of_record bin

abbrev pub trusted_comment_tag : Text
trusted_comment_tag = codes "trusted comment: "

unfoldable pub is_prehashed : Text → Result VerifyError Bool
unfolding text_eq
is_prehashed alg =
    if text_eq alg alg_legacy
    then ok false
    else if text_eq alg alg_prehashed
    then ok true
    else err sig_algorithm

-- The four lines of a signature file
unfoldable pub signature_of_lines : Crypto → List Text → Result VerifyError Signature
unfolding is_prehashed has_prefix
signature_of_lines c lines = do
  fail_if (ltb (length lines) 4) sig_malformed
  bin1 ← required (c.base64 (line_at 1 lines)) record_undecodable
  fail_if (not (length bin1 == 74)) record_wrong_length
  fail_if (not (has_prefix (line_at 2 lines) trusted_comment_tag)) no_trusted_comment
  bin2 ← required (c.base64 (line_at 3 lines)) global_undecodable
  fail_if (not (length bin2 == 64)) global_wrong_length
  prehashed ← is_prehashed (take 2 bin1)
  ok (record {
    prehashed = prehashed;
    key_id = take 8 (drop 2 bin1);
    sig = take 64 (drop 10 bin1);
    trusted_comment = drop (length trusted_comment_tag) (line_at 2 lines);
    global_sig = bin2;
  })

-- parseSignature
unfoldable pub parse_signature : Crypto → Text → Result VerifyError Signature
unfolding signature_of_lines text_lines trim_space
parse_signature c sig = do
  decoded ← required (c.base64 (trim_space sig)) sig_undecodable
  signature_of_lines c (text_lines decoded)

-- (*publicKey).verify
unfoldable pub verify : Crypto → PublicKey → Text → Signature → Check VerifyError
unfolding text_eq
verify c pk bytes s = do
  fail_if (not (text_eq pk.key_id s.key_id)) key_id_mismatch
  fail_if (not (c.ed25519 pk.key (if s.prehashed then c.blake2b bytes else bytes) s.sig))
      bad_signature
  fail_if (not (c.ed25519 pk.key (s.sig ++ s.trusted_comment) s.global_sig)) bad_signature

-- verifyTarball
unfoldable pub verify_tarball : Crypto → Text → Text → Text → Check VerifyError
unfolding parse_public_key parse_signature verify
verify_tarball c bytes sig pub_key = do
  pk ← parse_public_key c pub_key
  s ← parse_signature c sig
  verify c pk bytes s
