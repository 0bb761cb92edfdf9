-- ===== src/Text/Base64/Unbroken.antt =====
-- Python's `base64.b64encode`, which breaks no lines, and that `decodebytes` reads it back.
use hedwig_python.Prelude.{
  ℕ, ◌+◌, ◌*◌, ◌/◌, ◌%◌, ◌≡◌, refl, String, false, some, List, [], ◌∷◌, All, arith, ap, subst,
}
use hedwig_python.Text.Base64.{
  symbol, four, none_read, two_read, three_read, complete, decode_text, decodebytes, step,
  value_step, padding_step,
}
use hedwig_python.Text.Base64.RoundTrip.{IsByte, ap2, complete-symbol, decode-first, decode-four}

-- base64.b64encode(s).decode()
unfoldable pub b64encode : List ℕ → String
unfolding symbol four
b64encode [] = ""
b64encode (a ∷ []) = String.◌∷◌ (symbol (a / 4)) (String.◌∷◌ (symbol (a % 4 * 16)) "==")
b64encode (a ∷ b ∷ []) =
    String.◌∷◌ (symbol (a / 4))
      (String.◌∷◌ (symbol (a % 4 * 16 + b / 16)) (String.◌∷◌ (symbol (b % 16 * 4)) "="))
b64encode (a ∷ b ∷ c ∷ rest) = four a b c (b64encode rest)

padded :
    (l : ℕ)
    → (decode_text "==" (two_read l false) ≡ some []) × (decode_text "=" (three_read l) ≡ some [])
unfolding decode_text step padding_step
padded l = (refl, refl)

decode_text-b64encode :
    (bytes : List ℕ) → All IsByte bytes → decode_text (b64encode bytes) none_read ≡ some bytes
unfolding b64encode
decode_text-b64encode [] h = unfold decode_text in refl
decode_text-b64encode (a ∷ []) (ha, h) =
    subst
      (λ n.
        decode_text (String.◌∷◌ (symbol (a / 4)) (String.◌∷◌ (symbol n) "==")) none_read
        ≡ some (a ∷ []))
      {x = a % 4 * 16 + 0} {y = a % 4 * 16} (omega arith)
      (decode-first a 0 "==" [] ha (omega arith) (padded 0).0)
decode_text-b64encode (a ∷ b ∷ []) (ha, (hb, h)) =
    unfold value_step in
    decode-first a (b / 16) _ (b ∷ []) ha (omega arith) (
      complete-symbol (two_read (b / 16) false) (three_read 0) (b % 16 * 4) b "=" [] (omega arith)
        (ap2 complete (omega arith) (ap three_read (omega arith))) (padded 0).1)
decode_text-b64encode (a ∷ b ∷ c ∷ rest) (ha, (hb, (hc, h))) =
    decode-four a b c (b64encode rest) rest ha hb hc (decode_text-b64encode rest h)

pub decodebytes-b64encode :
    (bytes : List ℕ) → All IsByte bytes → decodebytes (b64encode bytes) ≡ some bytes
unfolding decodebytes
decodebytes-b64encode bytes h = decode_text-b64encode bytes h
