-- ===== src/Text/NoSlash.antt =====
-- No digit is a slash, so a decimal number adds none to a text.
use hedwig_python.Prelude.{
  ℕ, zero, suc, ◌/◌, ◌%◌, Char, code, String, ◌≡◌, refl, true, false, Bool-cases, inl, inr, arith,
  ltb, ◌==◌, nat_eq, ◌∙◌,
}
use hedwig_python.Text.Decimal.{is_digit, digit, is_digit-digit, emit, decimal_onto}
use hedwig_python.Text.Segments.{has_slash}

digit_not_slash : (c : Char) → is_digit c ≡ true → (code c == b'/') ≡ false
unfolding is_digit
digit_not_slash c h = ground arith

has_slash-digit : (d : ℕ) (s : String) → has_slash (String.◌∷◌ (digit d) s) ≡ has_slash s
unfolding has_slash
has_slash-digit d s = rw (digit_not_slash (digit d) (is_digit-digit d)) refl

has_slash-emit : (fuel n : ℕ) (out : String) → has_slash (emit fuel n out) ≡ has_slash out
unfolding emit
has_slash-emit zero n out = refl
has_slash-emit (suc fuel) n out = elim (Bool-cases (ltb n 10)) [
  | inl last ↦ rw (last, emit) (has_slash-digit n out)
  | inr more ↦
      rw (more, emit)
        (has_slash-emit fuel (n / 10) (String.◌∷◌ (digit (n % 10)) out)
          ∙ has_slash-digit (n % 10) out)
]

pub has_slash-decimal_onto : (n : ℕ) (out : String) → has_slash (decimal_onto n out) ≡ has_slash out
unfolding decimal_onto
has_slash-decimal_onto n out = has_slash-emit (suc n) n out
