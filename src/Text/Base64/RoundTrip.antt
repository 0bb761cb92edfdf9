-- ===== src/Text/Base64/RoundTrip.antt =====
-- `decodebytes` reads back what `encodebytes` wrote.
use hedwig_python.Prelude.{
  ℕ, zero, suc, ◌+◌, ◌*◌, ◌/◌, ◌%◌, ◌<◌, ◌≡◌, refl, code, String, Bool, true, false, ◌&&◌, Option,
  none, some, List, [], ◌∷◌, ◌==◌, nat_eq, ==_iff, All, arith, ap, subst, ◌∙◌, ◌⊎◌, inl, inr,
  if◌then◌else◌,
}
use hedwig_python.Text.Base64.{
  symbol, letter_at, value_of, place_of, four, newline, encode_lines, line_left, encodebytes, Quad,
  none_read, one_read, two_read, three_read, take_in, complete, decode_text, step, value_step,
  padding_step, decodebytes,
}

-- The letter of a number stands for it, and is no padding.
reads : ℕ → Bool
unfolding symbol value_of
reads n =
    (elim (value_of (symbol n)) [ none ↦ false | some v ↦ v == n ])
    && (if code (symbol n) == b'=' then false else true)

module _ (p : ℕ → Bool) where
  all_below : ℕ → Bool
  all_below zero = true
  all_below (suc n) = p n && all_below n

  both : (a b : Bool) → (a && b) ≡ true → (a ≡ true) × (b ≡ true)
  both a b h = ground arith

  all_below-at : (n x : ℕ) → all_below n ≡ true → x < n → p x ≡ true
  unfolding all_below
  all_below-at zero x h l = absurd (omega arith)
  all_below-at (suc n) x h l =
      let (here, there) = both (p n) (all_below n) h in
      let split : (x ≡ n) ⊎ (x < n) = ground arith in
      elim split [ inl e ↦ rw e here | inr l' ↦ all_below-at n x there l' ]

alphabet_reads : all_below reads 64 ≡ true
unfolding all_below reads symbol value_of place_of letter_at
alphabet_reads = refl

value_of-symbol :
    (x : ℕ) → x < 64 → (value_of (symbol x) ≡ some x) × ((code (symbol x) == b'=') ≡ false)
value_of-symbol x l =
    read (value_of (symbol x)) (code (symbol x) == b'=')
      (unfold reads in all_below-at reads 64 x alphabet_reads l)
  where
    read :
        (o : Option ℕ) (padding : Bool)
        → ((elim o [ none ↦ false | some v ↦ v == x ]) && (if padding then false else true)) ≡ true
        → (o ≡ some x) × (padding ≡ false)
    read none padding h = cc
    read (some v) true h = ground arith
    read (some v) false h = (ground (arith, ==_iff v x), refl)

-- A letter of a number below 64 is taken into the group.
step-symbol : (q : Quad) (x : ℕ) → x < 64 → step q (symbol x) ≡ value_step q x
unfolding step
step-symbol q x l = let (v, p) = value_of-symbol x l in rw p (rw v refl)

skip : (s : String) → decode_text (String.◌∷◌ "\n" s) none_read ≡ decode_text s none_read
unfolding decode_text step value_of place_of
skip s = refl

take-symbol :
    (q q' : Quad) (x : ℕ) (s : String)
    → x < 64
    → value_step q x ≡ take_in q'
    → decode_text (String.◌∷◌ (symbol x) s) q ≡ decode_text s q'
unfolding decode_text
take-symbol q q' x s l e = rw (step-symbol q x l, decode_text) (rw e refl)

pub complete-symbol :
    (q q' : Quad) (x b : ℕ) (s : String) (bytes : List ℕ)
    → x < 64
    → value_step q x ≡ complete b q'
    → decode_text s q' ≡ some bytes
    → decode_text (String.◌∷◌ (symbol x) s) q ≡ some (b ∷ bytes)
unfolding decode_text
complete-symbol q q' x b s bytes l e h = rw (step-symbol q x l, decode_text) (rw e (rw h refl))

abbrev pub IsByte : ℕ → Type 0
IsByte b = b < 256

pub ap2 : {A B C : Type 0} (f : A → B → C) {a a' : A} {b b' : B} → a ≡ a' → b ≡ b' → f a b ≡ f a' b'
ap2 f p q = cc

-- The first two letters of a group give its first byte.
pub decode-first :
    (a x : ℕ) (s : String) (bytes : List ℕ)
    → a < 256
    → x < 16
    → decode_text s (two_read x false) ≡ some bytes
    → decode_text (String.◌∷◌ (symbol (a / 4)) (String.◌∷◌ (symbol (a % 4 * 16 + x)) s)) none_read
      ≡ some (a ∷ bytes)
unfolding value_step
decode-first a x s bytes ha hx h =
    take-symbol none_read (one_read (a / 4)) (a / 4) _ (omega arith) refl
    ∙ complete-symbol (one_read (a / 4)) (two_read x false) (a % 4 * 16 + x) a s bytes (omega arith)
        first h
  where
    first :
        complete (a / 4 * 4 + (a % 4 * 16 + x) / 16) (two_read ((a % 4 * 16 + x) % 16) false)
        ≡ complete a (two_read x false)
    first = ap2 complete (omega arith) (ap (λ (n : ℕ). two_read n false) (omega arith))

pub decode-four :
    (a b c : ℕ) (s : String) (bytes : List ℕ)
    → a < 256
    → b < 256
    → c < 256
    → decode_text s none_read ≡ some bytes
    → decode_text (four a b c s) none_read ≡ some (a ∷ b ∷ c ∷ bytes)
unfolding four value_step
decode-four a b c s bytes ha hb hc h = decode-first a (b / 16) _ (b ∷ c ∷ bytes) ha (omega arith) (
    complete-symbol (two_read (b / 16) false) (three_read (c / 64)) (b % 16 * 4 + c / 64) b _
      (c ∷ bytes) (omega arith) (ap2 complete (omega arith) (ap three_read (omega arith)))
      (complete-symbol (three_read (c / 64)) none_read (c % 64) c s bytes (omega arith)
        (ap2 complete (omega arith) refl) h))

decode-newline :
    (left : ℕ) (s : String) → decode_text (newline left s) none_read ≡ decode_text s none_read
unfolding newline
decode-newline zero s = skip s
decode-newline (suc left) s = refl

line_begun : (b : Bool) → decode_text (if b then "" else "\n") none_read ≡ some []
unfolding decode_text step value_of place_of
line_begun true = refl
line_begun false = refl

padded :
    (l : ℕ)
    → (decode_text "==\n" (two_read l false) ≡ some [])
      × (decode_text "=\n" (three_read l) ≡ some [])
unfolding decode_text step padding_step
padded l = (refl, refl)

decode-lines :
    (left : ℕ) (bytes : List ℕ)
    → All IsByte bytes
    → decode_text (encode_lines left bytes) none_read ≡ some bytes
unfolding encode_lines
decode-lines left [] h = line_begun (left == 18)
decode-lines left (a ∷ []) (ha, h) =
    subst
      (λ n.
        decode_text (String.◌∷◌ (symbol (a / 4)) (String.◌∷◌ (symbol n) "==\n")) none_read
        ≡ some (a ∷ []))
      {x = a % 4 * 16 + 0} {y = a % 4 * 16} (omega arith)
      (decode-first a 0 "==\n" [] ha (omega arith) (padded 0).0)
decode-lines left (a ∷ b ∷ []) (ha, (hb, h)) =
    unfold value_step in
    decode-first a (b / 16) _ (b ∷ []) ha (omega arith) (
      complete-symbol (two_read (b / 16) false) (three_read 0) (b % 16 * 4) b "=\n" [] (omega arith)
        (ap2 complete (omega arith) (ap three_read (omega arith))) (padded 0).1)
decode-lines left (a ∷ b ∷ c ∷ rest) (ha, (hb, (hc, h))) =
    decode-four a b c (newline left (encode_lines (line_left left) rest)) rest ha hb hc (
      decode-newline left (encode_lines (line_left left) rest)
      ∙ decode-lines (line_left left) rest h)

-- base64.decodebytes(base64.encodebytes(s)) == s
pub decodebytes-encodebytes :
    (bytes : List ℕ) → All IsByte bytes → decodebytes (encodebytes bytes) ≡ some bytes
unfolding decodebytes encodebytes
decodebytes-encodebytes bytes h = decode-lines 18 bytes h
