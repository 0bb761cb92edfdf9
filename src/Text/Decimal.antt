-- ===== src/Text/Decimal.antt =====
-- Decimal numbers: `str(n)` for n >= 0, and reading a run of digits.
use hedwig_python.Prelude.{
  ℕ, zero, suc, ◌+◌, ◌-◌, ◌*◌, ◌/◌, ◌%◌, ◌<◌, Char, code, String, ◌≡◌, refl, Bool, true, false,
  ◌&&◌, arith, ltb, leb, Bool-cases, inl, inr, ◌∙◌, ap, ltb→lt,
}

unfoldable pub is_digit : Char → Bool
is_digit c = leb 48 (code c) && leb (code c) 57

-- The character of a number below ten.
unfoldable pub digit : ℕ → Char
digit zero = "0"
digit (suc zero) = "1"
digit (suc (suc zero)) = "2"
digit (suc (suc (suc zero))) = "3"
digit (suc (suc (suc (suc zero)))) = "4"
digit (suc (suc (suc (suc (suc zero))))) = "5"
digit (suc (suc (suc (suc (suc (suc zero)))))) = "6"
digit (suc (suc (suc (suc (suc (suc (suc zero))))))) = "7"
digit (suc (suc (suc (suc (suc (suc (suc (suc zero)))))))) = "8"
digit _ = "9"

-- The digits of `n`, last one first, put in front of `out`. Each round divides by ten.
unfoldable pub emit : ℕ → ℕ → String → String
unfolding digit
emit zero n out = out
emit (suc fuel) n out = elim (ltb n 10) [
  | true ↦ String.◌∷◌ (digit n) out
  | false ↦ emit fuel (n / 10) (String.◌∷◌ (digit (n % 10)) out)
]

-- The decimal number `n`, then `out`. More rounds than `n` are never needed.
unfoldable pub decimal_onto : ℕ → String → String
unfolding emit
decimal_onto n out = emit (suc n) n out

-- The number that the leading digits of a text spell behind `acc`, and the text after them.
unfoldable pub span_digits : ℕ → String → ℕ × String
unfolding is_digit
span_digits acc String.[] = (acc, "")
span_digits acc (String.◌∷◌ c s) = elim (is_digit c) [
  | true ↦ span_digits (acc * 10 + (code c - 48)) s
  | false ↦ (acc, String.◌∷◌ c s)
]

abbrev pub StartsNoDigit : String → Type 0
StartsNoDigit String.[] = Unit
StartsNoDigit (String.◌∷◌ c s) = is_digit c ≡ false

pub is_digit-digit : (d : ℕ) → is_digit (digit d) ≡ true
unfolding is_digit digit
is_digit-digit zero = refl
is_digit-digit (suc zero) = refl
is_digit-digit (suc (suc zero)) = refl
is_digit-digit (suc (suc (suc zero))) = refl
is_digit-digit (suc (suc (suc (suc zero)))) = refl
is_digit-digit (suc (suc (suc (suc (suc zero))))) = refl
is_digit-digit (suc (suc (suc (suc (suc (suc zero)))))) = refl
is_digit-digit (suc (suc (suc (suc (suc (suc (suc zero))))))) = refl
is_digit-digit (suc (suc (suc (suc (suc (suc (suc (suc zero)))))))) = refl
is_digit-digit _ = refl

code-digit : (d : ℕ) → d < 10 → code (digit d) ≡ 48 + d
unfolding digit
code-digit zero h = refl
code-digit (suc zero) h = refl
code-digit (suc (suc zero)) h = refl
code-digit (suc (suc (suc zero))) h = refl
code-digit (suc (suc (suc (suc zero)))) h = refl
code-digit (suc (suc (suc (suc (suc zero))))) h = refl
code-digit (suc (suc (suc (suc (suc (suc zero)))))) h = refl
code-digit (suc (suc (suc (suc (suc (suc (suc zero))))))) h = refl
code-digit (suc (suc (suc (suc (suc (suc (suc (suc zero)))))))) h = refl
code-digit _ h = omega arith

-- Reading one more digit.
span_digits-digit :
    (acc d : ℕ) (s : String)
    → d < 10
    → span_digits acc (String.◌∷◌ (digit d) s) ≡ span_digits (acc * 10 + d) s
unfolding span_digits
span_digits-digit acc d s h =
    rw (is_digit-digit d, code-digit d h, span_digits)
      (ap (λ (k : ℕ). span_digits (acc * 10 + k) s) (omega arith))

span_digits-emit :
    (fuel n : ℕ) (out : String) → n < fuel → span_digits 0 (emit fuel n out) ≡ span_digits n out
unfolding emit
span_digits-emit zero n out h = elim h [ ]
span_digits-emit (suc fuel) n out h = elim (Bool-cases (ltb n 10)) [
  | inl last ↦
      rw (last, emit)
        (span_digits-digit 0 n out (ltb→lt n 10 last)
          ∙ ap (λ (k : ℕ). span_digits k out) (omega arith))
  | inr more ↦
      rw (more, emit)
        (span_digits-emit fuel (n / 10) (String.◌∷◌ (digit (n % 10)) out) (ground arith)
          ∙ span_digits-digit (n / 10) (n % 10) out (omega arith)
          ∙ ap (λ (k : ℕ). span_digits k out) (omega arith))
]

span_digits_stop : (acc : ℕ) (s : String) → StartsNoDigit s → span_digits acc s ≡ (acc, s)
unfolding span_digits
span_digits_stop acc String.[] h = refl
span_digits_stop acc (String.◌∷◌ c s) h = rw (h, span_digits)

-- A decimal number is read back, up to what follows it.
pub span_digits-decimal_onto :
    (n : ℕ) (out : String) → StartsNoDigit out → span_digits 0 (decimal_onto n out) ≡ (n, out)
unfolding decimal_onto
span_digits-decimal_onto n out h =
    span_digits-emit (suc n) n out (omega arith) ∙ span_digits_stop n out h

-- What is printed starts with a digit.
abbrev pub StartsDigit : String → Type 0
StartsDigit String.[] = ⊥
StartsDigit (String.◌∷◌ c s) = is_digit c ≡ true

emit-StartsDigit : (fuel n : ℕ) (out : String) → StartsDigit out → StartsDigit (emit fuel n out)
unfolding emit
emit-StartsDigit zero n out h = h
emit-StartsDigit (suc fuel) n out h = elim (Bool-cases (ltb n 10)) [
  | inl last ↦ rw (last, emit, StartsDigit) (is_digit-digit n)
  | inr more ↦
      rw (more, emit, StartsDigit) (emit-StartsDigit fuel (n / 10) _ (is_digit-digit (n % 10)))
]

pub decimal_onto-StartsDigit : (n : ℕ) (out : String) → StartsDigit (decimal_onto n out)
unfolding decimal_onto emit
decimal_onto-StartsDigit n out = elim (Bool-cases (ltb n 10)) [
  | inl last ↦ rw (last, emit, StartsDigit) (is_digit-digit n)
  | inr more ↦
      rw (more, emit, StartsDigit) (emit-StartsDigit n (n / 10) _ (is_digit-digit (n % 10)))
]

decimal_test : decimal_onto 1460868253255 "/" ≡ "1460868253255/"
unfolding decimal_onto
decimal_test = refl
