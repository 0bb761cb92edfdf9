-- ===== src/Text/IntLiteral.antt =====
-- `str(z)` and `int(s)` for Python's `int`, over ASCII: `int` takes blanks around the number, a sign,
-- and single underscores between digits. (Python also takes other Unicode blanks and digits.)
use hedwig_python.Prelude.{
  ℕ, zero, suc, Char, code, String, ◌≡◌, refl, Bool, true, false, ◌&&◌, ◌||◌, Option, none, some,
  arith, leb, ◌==◌, nat_eq,
}
use hedwig_python.Prelude.Int.{ℤ, pos, negsuc, neg_of}
use hedwig_python.Text.Decimal.{
  is_digit, span_digits, decimal_onto, StartsDigit, decimal_onto-StartsDigit,
  span_digits-decimal_onto,
}
use mathlib.Core.Option
use Prim.Native.String.{count}

-- str(z)
unfoldable pub int_str : ℤ → String
unfolding decimal_onto
int_str (pos n) = decimal_onto n ""
int_str (negsuc n) = String.◌∷◌ "-" (decimal_onto (suc n) "")

unfoldable pub is_blank : Char → Bool
is_blank c = (leb 9 (code c) && leb (code c) 13) || (leb 28 (code c) && leb (code c) 32)

all_blank : String → Bool
all_blank String.[] = true
all_blank (String.◌∷◌ c s) = is_blank c && all_blank s

-- What may follow a run of digits: another run after one underscore, or blanks. The fuel bounds the
-- number of runs; each takes at least one character.
after_digits : ℕ → ℕ → String → Option ℕ
unfolding all_blank span_digits is_blank
after_digits zero n s = none
after_digits (suc fuel) n String.[] = some n
after_digits (suc fuel) n (String.◌∷◌ c String.[]) = elim (is_blank c) [
  | true ↦ some n
  | false ↦ none
]
after_digits (suc fuel) n (String.◌∷◌ c (String.◌∷◌ d s)) = elim (code c == b'_' && is_digit d) [
  | true ↦ let after = span_digits n (String.◌∷◌ d s) in after_digits fuel after.0 after.1
  | false ↦ elim (is_blank c && all_blank (String.◌∷◌ d s)) [ true ↦ some n | false ↦ none ]
]

-- An unsigned number: a digit first.
unsigned : String → Option ℕ
unfolding after_digits
unsigned String.[] = none
unsigned (String.◌∷◌ c s) = elim (is_digit c) [
  | true ↦
      let after = span_digits 0 (String.◌∷◌ c s) in after_digits (suc (count s)) after.0 after.1
  | false ↦ none
]

signed : String → Option ℤ
unfolding unsigned
signed String.[] = none
signed (String.◌∷◌ c s) = elim (code c == b'-') [
  | true ↦ Option.map neg_of (unsigned s)
  | false ↦ elim (code c == b'+') [
    | true ↦ Option.map pos (unsigned s)
    | false ↦ Option.map pos (unsigned (String.◌∷◌ c s))
  ]
]

-- int(s); `none` is its ValueError
unfoldable pub int_of : String → Option ℤ
unfolding signed is_blank
int_of String.[] = none
int_of (String.◌∷◌ c s) = elim (is_blank c) [ true ↦ int_of s | false ↦ signed (String.◌∷◌ c s) ]

int_tests :
    (int_of " -12\n" ≡ some (negsuc 11))
    × (int_of "1_000" ≡ some (pos 1000))
    × (int_of "1__0" ≡ none)
    × (int_of "+7" ≡ some (pos 7))
    × (int_of "_1" ≡ none)
    × (int_of "7_" ≡ none)
    × (int_of "1 2" ≡ none)
unfolding int_of
int_tests = (refl, refl, refl, refl, refl, refl, refl)

-- A run of digits alone is a number.
unsigned_whole :
    (n : ℕ) (t : String) → StartsDigit t → span_digits 0 t ≡ (n, "") → unsigned t ≡ some n
unfolding unsigned
unsigned_whole n String.[] h e = absurd h
unsigned_whole n (String.◌∷◌ c s) h e = rw (h, unsigned) (rw e refl)

unsigned-decimal_onto : (n : ℕ) → unsigned (decimal_onto n "") ≡ some n
unsigned-decimal_onto n =
    unsigned_whole n (decimal_onto n "") (decimal_onto-StartsDigit n "")
      (span_digits-decimal_onto n "" tt)

digit_no_mark :
    (c : Char)
    → is_digit c ≡ true
    → (is_blank c ≡ false) × ((code c == b'-') ≡ false) × ((code c == b'+') ≡ false)
unfolding is_digit is_blank
digit_no_mark c h = ground arith

int_of-unsigned :
    (n : ℕ) (t : String) → StartsDigit t → unsigned t ≡ some n → int_of t ≡ some (pos n)
unfolding int_of
int_of-unsigned n String.[] h e = absurd h
int_of-unsigned n (String.◌∷◌ c s) h e =
    let (blank, minus, plus) = digit_no_mark c h in
    rw (blank, int_of) (rw (minus, signed) (rw (plus, signed) (rw e refl)))

-- Every integer is read back from its print.
pub int_of-int_str : (z : ℤ) → int_of (int_str z) ≡ some z
unfolding int_str
int_of-int_str (pos n) =
    int_of-unsigned n (decimal_onto n "") (decimal_onto-StartsDigit n "") (unsigned-decimal_onto n)
int_of-int_str (negsuc n) = unfold int_of in rw (unsigned-decimal_onto (suc n)) refl
