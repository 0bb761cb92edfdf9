-- ===== src/Text/Utf8/RoundTrip.antt =====
-- `decode_utf8` reads back what `encode_utf8` wrote.
use Prim.Native.Char.{char, IsScalar}
use mathlib.Core.Option
use text.Mathlib.TextEquality.{Char-path}
use hedwig_python.Prelude.{
  ℕ, zero, suc, ◌+◌, ◌*◌, ◌/◌, ◌%◌, ◌≤◌, ◌<◌, Char, code, String, ◌≡◌, refl, sym, ap, ◌∙◌, true,
  Option, some, List, ◌∷◌, ltb, leb, arith, Bool-cases, inl, inr,
}
use hedwig_python.Text.Utf8.{
  encode_code, encode_utf8, is_scalar, char_of, char_by, Pending, between, within, partial,
  complete, finish, next_byte, step, decode_from, decode_utf8,
}

char_of-code : (c : Char) → char_of (code c) ≡ some c
unfolding char_of
char_of-code (char n p) = by_decision (is_scalar n)
  where
    by_decision : (d : Dec (IsScalar n)) → char_by n d ≡ some (char n p)
    by_decision (yes q) = ap some (Char-path (char n q) (char n p) refl)
    by_decision (no q) = absurd (q p)

-- A character is known by its number.
pub code-inj : (c d : Char) → code c ≡ code d → c ≡ d
code-inj c d e = ap (λ o. or_char d o) (sym (char_of-code c) ∙ ap char_of e ∙ char_of-code d)
  where
    or_char : Char → Option Char → Char
    or_char other Option.none = other
    or_char other (Option.some c) = c

finish-code : (least : ℕ) (c : Char) → least ≤ code c → finish least (code c) ≡ complete c
unfolding finish
finish-code least c h =
    let e : leb least (code c) ≡ true = ground arith in rw e (rw (char_of-code c) refl)

order_bound : (n : ℕ) → IsScalar n → n < 1114112
order_bound n p = ground arith

code-bound : (c : Char) → code c < 1114112
code-bound (char n p) = order_bound n p

step-first : (n : ℕ) → ltb n 128 ≡ true → step between n ≡ finish 0 n
unfolding step
step-first n h = rw h refl

step-two : (k : ℕ) → k < 32 → step between (192 + k) ≡ partial (within 0 k 128)
unfolding step
step-two k h = ground arith

step-three : (k : ℕ) → k < 16 → step between (224 + k) ≡ partial (within 1 k 2048)
unfolding step
step-three k h = ground arith

step-four : (k : ℕ) → k < 8 → step between (240 + k) ≡ partial (within 2 k 65536)
unfolding step
step-four k h = ground arith

step-within :
    (more number least k : ℕ)
    → k < 64
    → step (within more number least) (128 + k) ≡ next_byte more (number * 64 + k) least
unfolding step
step-within zero number least k h = ground arith
step-within (suc more) number least k h = ground arith

module _ (b : ℕ) (bytes : List ℕ) where
  goes_on : (p q : Pending) → step p b ≡ partial q → decode_from p (b ∷ bytes) ≡ decode_from q bytes
  unfolding decode_from
  goes_on between q e = rw (e, decode_from) refl
  goes_on (within more number least) q e = rw (e, decode_from) refl

  ends :
      (p : Pending) (c : Char)
      → step p b ≡ complete c
      → decode_from p (b ∷ bytes) ≡ Option.map (String.◌∷◌ c) (decode_from between bytes)
  unfolding decode_from
  ends between c e = rw (e, decode_from) refl
  ends (within more number least) c e = rw (e, decode_from) refl

-- The bytes of one character, by how many they are.
module _ (n : ℕ) (c : Char) (bytes : List ℕ) (number : code c ≡ n) where
  abbrev read_on : Option String
  read_on = Option.map (String.◌∷◌ c) (decode_from between bytes)

  finishes : (least k : ℕ) → least ≤ n → k ≡ n → finish least k ≡ complete c
  finishes least k h e = rw e (rw (← number) (finish-code least c (rw number h)))

  one_byte : n < 128 → decode_from between (n ∷ bytes) ≡ read_on
  one_byte h =
      ends n bytes between c (step-first n (ground arith) ∙ finishes 0 n (omega arith) refl)

  -- The last byte of several.
  last :
      (number least : ℕ)
      → least ≤ n
      → number * 64 + n % 64 ≡ n
      → decode_from (within 0 number least) ((128 + n % 64) ∷ bytes) ≡ read_on
  last number least l e =
      ends (128 + n % 64) bytes (within 0 number least) c
        (step-within 0 number least (n % 64) (omega arith) ∙ finishes least _ l e)

  -- The byte before it.
  last_two :
      (number least : ℕ)
      → least ≤ n
      → (number * 64 + n / 64 % 64) * 64 + n % 64 ≡ n
      → decode_from (within 1 number least) ((128 + n / 64 % 64) ∷ (128 + n % 64) ∷ bytes) ≡ read_on
  last_two number least l e =
      goes_on (128 + n / 64 % 64) ((128 + n % 64) ∷ bytes) (within 1 number least) _
        (step-within 1 number least (n / 64 % 64) (omega arith))
      ∙ last (number * 64 + n / 64 % 64) least l e

  two_bytes :
      128 ≤ n → n < 2048 → decode_from between ((192 + n / 64) ∷ (128 + n % 64) ∷ bytes) ≡ read_on
  two_bytes l h =
      goes_on (192 + n / 64) ((128 + n % 64) ∷ bytes) between _ (step-two (n / 64) (omega arith))
      ∙ last (n / 64) 128 l (omega arith)

  three_bytes :
      2048 ≤ n
      → n < 65536
      → decode_from between ((224 + n / 4096) ∷ (128 + n / 64 % 64) ∷ (128 + n % 64) ∷ bytes)
        ≡ read_on
  three_bytes l h =
      goes_on (224 + n / 4096) ((128 + n / 64 % 64) ∷ (128 + n % 64) ∷ bytes) between _
        (step-three (n / 4096) (omega arith))
      ∙ last_two (n / 4096) 2048 l (omega arith)

  four_bytes :
      65536 ≤ n
      → n < 1114112
      → decode_from between (
          (240 + n / 262144) ∷ (128 + n / 4096 % 64) ∷ (128 + n / 64 % 64) ∷ (128 + n % 64) ∷ bytes)
        ≡ read_on
  four_bytes l h =
      goes_on (240 + n / 262144) _ between _ (step-four (n / 262144) (omega arith))
      ∙ goes_on (128 + n / 4096 % 64) ((128 + n / 64 % 64) ∷ (128 + n % 64) ∷ bytes)
          (within 2 (n / 262144) 65536) _
          (step-within 2 (n / 262144) 65536 (n / 4096 % 64) (omega arith))
      ∙ last_two (n / 262144 * 64 + n / 4096 % 64) 65536 l (omega arith)

decode_from-encode_code :
    (n : ℕ) (c : Char) (bytes : List ℕ)
    → code c ≡ n
    → decode_from between (encode_code n bytes)
      ≡ Option.map (String.◌∷◌ c) (decode_from between bytes)
unfolding encode_code
decode_from-encode_code n c bytes number = elim (Bool-cases (ltb n 128)) [
  | inl a ↦ rw a (one_byte n c bytes number (ground arith))
  | inr a ↦ elim (Bool-cases (ltb n 2048)) [
    | inl b ↦ rw a (rw b (two_bytes n c bytes number (ground arith) (ground arith)))
    | inr b ↦ elim (Bool-cases (ltb n 65536)) [
      | inl d ↦ rw a (rw b (rw d (three_bytes n c bytes number (ground arith) (ground arith))))
      | inr d ↦
          rw a (
            rw b (rw d (four_bytes n c bytes number (ground arith) (rw (← number) (code-bound c)))))
    ]
  ]
]

pub decode_utf8-encode_utf8 : (s : String) → decode_utf8 (encode_utf8 s) ≡ some s
unfolding decode_utf8 encode_utf8 decode_from
decode_utf8-encode_utf8 String.[] = refl
decode_utf8-encode_utf8 (String.◌∷◌ c s) =
    decode_from-encode_code (code c) c (encode_utf8 s) refl ∙ rw (decode_utf8-encode_utf8 s) refl
