-- ===== src/Text/Utf8.antt =====
-- Python's strict UTF-8 codec: `s.encode('utf8')` and `b.decode('utf8')`. Bytes are numbers below
-- 256. A lone surrogate is no character here.
pub mod RoundTrip
use Prim.Native.Nat.{Ordering, compare}
use Prim.Native.Char.{char, IsScalar, IsLt}
use mathlib.Core.Option
use hedwig_python.Prelude.{
  ℕ, zero, suc, ◌+◌, ◌-◌, ◌*◌, ◌/◌, ◌%◌, Char, code, String, Bool, true, false, ◌&&◌, Option, none,
  some, List, [], ◌∷◌, ltb, leb, if◌then◌else◌,
}

-- The bytes of the character number `n`, in front of `rest`.
unfoldable pub encode_code : ℕ → List ℕ → List ℕ
encode_code n rest =
    if ltb n 128
    then n ∷ rest
    else if ltb n 2048
    then (192 + n / 64) ∷ (128 + n % 64) ∷ rest
    else if ltb n 65536
    then (224 + n / 4096) ∷ (128 + n / 64 % 64) ∷ (128 + n % 64) ∷ rest
    else (240 + n / 262144) ∷ (128 + n / 4096 % 64) ∷ (128 + n / 64 % 64) ∷ (128 + n % 64) ∷ rest

unfoldable pub encode_utf8 : String → List ℕ
unfolding encode_code
encode_utf8 String.[] = []
encode_utf8 (String.◌∷◌ c s) = encode_code (code c) (encode_utf8 s)

-- The comparisons that `IsScalar` makes.
abbrev BothLess : Ordering → Ordering → Type 0
BothLess Ordering.lt q = IsLt q
BothLess Ordering.eq _ = ⊥
BothLess Ordering.gt _ = ⊥

abbrev pub IsScalarBy : Ordering → Ordering → Ordering → Type 0
IsScalarBy Ordering.lt _ _ = Unit
IsScalarBy Ordering.eq p q = BothLess p q
IsScalarBy Ordering.gt p q = BothLess p q

abbrev less : (q : Ordering) → Dec (IsLt q)
less Ordering.lt = yes tt
less Ordering.eq = no (λ z. z)
less Ordering.gt = no (λ z. z)

abbrev both_less_dec : (p q : Ordering) → Dec (BothLess p q)
both_less_dec Ordering.lt q = less q
both_less_dec Ordering.eq q = no (λ z. z)
both_less_dec Ordering.gt q = no (λ z. z)

abbrev scalar_dec : (o p q : Ordering) → Dec (IsScalarBy o p q)
scalar_dec Ordering.lt p q = yes tt
scalar_dec Ordering.eq p q = both_less_dec p q
scalar_dec Ordering.gt p q = both_less_dec p q

unfoldable pub is_scalar : (n : ℕ) → Dec (IsScalar n)
is_scalar n = scalar_dec (compare n 55296) (compare 57343 n) (compare n 1114112)

-- The character of a number.
abbrev pub char_by : (n : ℕ) → Dec (IsScalar n) → Option Char
char_by n (yes proof) = some (char n proof)
char_by n (no _) = none

unfoldable pub char_of : ℕ → Option Char
unfolding is_scalar
char_of n = char_by n (is_scalar n)

-- Between two characters, or within one: how many more bytes it takes behind the next one, its
-- number so far, and the least number that takes so many bytes.
pub data Pending : Type 0 where
  between : Pending
  within : (more : ℕ) (number least : ℕ) → Pending

-- What a byte does: it is no UTF-8, it is part of a character, or it completes one.
pub data Step : Type 0 where
  bad : Step
  partial : Pending → Step
  complete : Char → Step

abbrev pub completed : Option Char → Step
completed none = bad
completed (some c) = complete c

-- A character of the number `n`, which took the bytes of `least` at least.
unfoldable pub finish : ℕ → ℕ → Step
unfolding char_of
finish least n = if leb least n then completed (char_of n) else bad

abbrev pub next_byte : ℕ → ℕ → ℕ → Step
next_byte zero number least = finish least number
next_byte (suc more) number least = partial (within more number least)

unfoldable pub step : Pending → ℕ → Step
unfolding finish
step between b =
    if ltb b 128
    then finish 0 b
    else if ltb b 192
    then bad
    else if ltb b 224
    then partial (within 0 (b - 192) 128)
    else if ltb b 240
    then partial (within 1 (b - 224) 2048)
    else if ltb b 248
    then partial (within 2 (b - 240) 65536)
    else bad
step (within more number least) b =
    if leb 128 b && ltb b 192 then next_byte more (number * 64 + (b - 128)) least else bad

unfoldable pub decode_from : Pending → List ℕ → Option String
unfolding step
decode_from between [] = some ""
decode_from (within more number least) [] = none
decode_from p (b ∷ bytes) = elim (step p b) [
  | bad ↦ none
  | partial q ↦ decode_from q bytes
  | complete c ↦ Option.map (String.◌∷◌ c) (decode_from between bytes)
]

-- `none` is a UnicodeDecodeError.
unfoldable pub decode_utf8 : List ℕ → Option String
unfolding decode_from
decode_utf8 bytes = decode_from between bytes
