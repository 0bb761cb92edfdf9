-- ===== src/Text/Base64.antt =====
-- Python's `base64.encodebytes` and `base64.decodebytes`, as the backends use them to send bytes as
-- a text. Bytes are numbers below 256.
pub mod RoundTrip
pub mod Unbroken
use hedwig_python.Prelude.{
  ℕ, zero, suc, ◌+◌, ◌*◌, ◌/◌, ◌%◌, Char, code, String, Bool, true, false, Option, none, some, List,
  [], ◌∷◌, ◌==◌, nat_eq, if◌then◌else◌,
}
use mathlib.Core.Option

abbrev pub alphabet : String
alphabet = "ABCDEFGHIJKLMNOPQRSTUVWXYZabcdefghijklmnopqrstuvwxyz0123456789+/"

-- The letter at a place of a text; past its end, the padding.
unfoldable pub letter_at : String → ℕ → Char
letter_at String.[] n = "="
letter_at (String.◌∷◌ c s) zero = c
letter_at (String.◌∷◌ c s) (suc n) = letter_at s n

unfoldable pub symbol : ℕ → Char
unfolding letter_at
symbol n = letter_at alphabet n

-- The place of a letter in a text, counted from `n`.
unfoldable pub place_of : Char → ℕ → String → Option ℕ
place_of c n String.[] = none
place_of c n (String.◌∷◌ d s) =
    let rest = place_of c (n + 1) s in if code c == code d then some n else rest

unfoldable pub value_of : Char → Option ℕ
unfolding place_of
value_of c = place_of c 0 alphabet

unfoldable pub four : ℕ → ℕ → ℕ → String → String
unfolding symbol
four a b c rest = String.◌∷◌ (symbol (a / 4)) (
    String.◌∷◌ (symbol (a % 4 * 16 + b / 16))
      (String.◌∷◌ (symbol (b % 16 * 4 + c / 64)) (String.◌∷◌ (symbol (c % 64)) rest)))

-- A line has 19 groups of three bytes at most. Each line is ended by a newline.
unfoldable pub newline : ℕ → String → String
newline zero rest = String.◌∷◌ "\n" rest
newline (suc left) rest = rest

abbrev pub line_left : ℕ → ℕ
line_left zero = 18
line_left (suc left) = left

-- `left` is how many groups the line takes behind the next one.
unfoldable pub encode_lines : ℕ → List ℕ → String
unfolding four newline symbol
encode_lines left [] = if left == 18 then "" else "\n"
encode_lines left (a ∷ []) = String.◌∷◌ (symbol (a / 4)) (String.◌∷◌ (symbol (a % 4 * 16)) "==\n")
encode_lines left (a ∷ b ∷ []) =
    String.◌∷◌ (symbol (a / 4))
      (String.◌∷◌ (symbol (a % 4 * 16 + b / 16)) (String.◌∷◌ (symbol (b % 16 * 4)) "=\n"))
encode_lines left (a ∷ b ∷ c ∷ rest) =
    four a b c (newline left (encode_lines (line_left left) rest))

-- base64.encodebytes(s).decode()
unfoldable pub encodebytes : List ℕ → String
unfolding encode_lines
encodebytes bytes = encode_lines 18 bytes

-- How much of a group of four letters was read, the bits that are left of it, and whether a padding
-- came.
pub data Quad : Type 0 where
  none_read : Quad
  one_read : ℕ → Quad
  two_read : ℕ → Bool → Quad
  three_read : ℕ → Quad

-- What a letter does: it is taken in, it completes a byte, or it ends the text.
pub data Step : Type 0 where
  take_in : Quad → Step
  complete : ℕ → Quad → Step
  stop : Step

-- A padding counts from the third place on; a letter outside the alphabet is passed over.
unfoldable pub padding_step : Quad → Step
padding_step none_read = take_in none_read
padding_step (one_read l) = take_in (one_read l)
padding_step (two_read l false) = take_in (two_read l true)
padding_step (two_read l true) = stop
padding_step (three_read l) = stop

unfoldable pub value_step : Quad → ℕ → Step
value_step none_read v = take_in (one_read v)
value_step (one_read l) v = complete (l * 4 + v / 16) (two_read (v % 16) false)
value_step (two_read l p) v = complete (l * 16 + v / 4) (three_read (v % 4))
value_step (three_read l) v = complete (l * 64 + v) none_read

abbrev pub letter_step : Quad → Option ℕ → Step
letter_step q none = take_in q
letter_step q (some v) = value_step q v

unfoldable pub step : Quad → Char → Step
unfolding padding_step value_step value_of
step q c = if code c == b'=' then padding_step q else letter_step q (value_of c)

-- binascii.a2b_base64(s). Without a whole group at the end it is a ValueError (`none`).
unfoldable pub decode_text : String → Quad → Option (List ℕ)
unfolding step
decode_text String.[] none_read = some []
decode_text String.[] _ = none
decode_text (String.◌∷◌ c s) q = elim (step q c) [
  | take_in q' ↦ decode_text s q'
  | complete b q' ↦ Option.map (λ bs. b ∷ bs) (decode_text s q')
  | stop ↦ some []
]

unfoldable pub decodebytes : String → Option (List ℕ)
unfolding decode_text
decodebytes s = decode_text s none_read
