-- ===== src/Version.antt =====
-- `distutils.version.StrictVersion` of Python's standard library, as hedwig/models.py and
-- hedwig/validators/base.py use it: parsing, printing and equality.
pub mod RoundTrip
use hedwig_python.Prelude.{
  ℕ, Char, code, String, ◌≡◌, refl, Bool, true, false, ◌&&◌, Option, none, some, ◌==◌, nat_eq,
  ==_refl, if◌then◌else◌,
}
use hedwig_python.Text.Decimal.{is_digit, span_digits, decimal_onto}

pub data Letter : Type 0 where
  alpha beta : Letter

pub record StrictVersion : Type 0 where
  pub major : ℕ
  pub minor : ℕ
  pub patch : ℕ
  pub prerelease : Option (Letter × ℕ)

infixl 5 ◌>>=◌
abbrev ◌>>=◌ : {A B : Type 0} → Option A → (A → Option B) → Option B
none >>= f = none
some a >>= f = f a

-- `(\d+)`
number : String → Option (ℕ × String)
unfolding span_digits
number String.[] = none
number (String.◌∷◌ c s) = if is_digit c then some (span_digits 0 (String.◌∷◌ c s)) else none

-- `\.`
dot : String → Option String
dot String.[] = none
dot (String.◌∷◌ c s) = if code c == b'.' then some s else none

-- `(\. (\d+))?`
optional_patch : String → Option (ℕ × String)
unfolding number
optional_patch String.[] = some (0, "")
optional_patch (String.◌∷◌ c s) = if code c == b'.' then number s else some (0, String.◌∷◌ c s)

tagged : Letter → ℕ × String → Option (Option (Letter × ℕ) × String)
tagged l (n, rest) = some (some (l, n), rest)

-- `([ab](\d+))?`
optional_prerelease : String → Option (Option (Letter × ℕ) × String)
unfolding number tagged
optional_prerelease String.[] = some (none, "")
optional_prerelease (String.◌∷◌ c s) =
    if code c == b'a'
    then number s >>= tagged alpha
    else if code c == b'b'
    then number s >>= tagged beta
    else some (none, String.◌∷◌ c s)

-- `$`: the end, or a line feed before the end
unfoldable pub at_end : String → Bool
at_end String.[] = true
at_end (String.◌∷◌ c String.[]) = code c == 10
at_end (String.◌∷◌ c (String.◌∷◌ d s)) = false

finish : ℕ → ℕ → ℕ → Option (Letter × ℕ) × String → Option StrictVersion
unfolding at_end
finish major minor patch (prerelease, rest) =
    if at_end rest
    then some (record { major = major; minor = minor; patch = patch; prerelease = prerelease })
    else none

-- StrictVersion(s); `none` is its ValueError
unfoldable pub parse : String → Option StrictVersion
unfolding number dot optional_patch optional_prerelease finish
parse s = do
  (major, s₁) ← number s
  s₂ ← dot s₁
  (minor, s₃) ← number s₂
  (patch, s₄) ← optional_patch s₃
  tail ← optional_prerelease s₄
  finish major minor patch tail

-- str(v): the patch number is left out when it is zero.
prerelease_str : Option (Letter × ℕ) → String
unfolding decimal_onto
prerelease_str none = ""
prerelease_str (some (alpha, n)) = String.◌∷◌ "a" (decimal_onto n "")
prerelease_str (some (beta, n)) = String.◌∷◌ "b" (decimal_onto n "")

patch_str : ℕ → String → String
unfolding decimal_onto
patch_str patch rest = if patch == 0 then rest else String.◌∷◌ "." (decimal_onto patch rest)

unfoldable pub version_str : StrictVersion → String
unfolding decimal_onto prerelease_str patch_str
version_str v =
    decimal_onto v.major
      (String.◌∷◌ "." (decimal_onto v.minor (patch_str v.patch (prerelease_str v.prerelease))))

abbrev pub version : ℕ → ℕ → StrictVersion
version major minor = record { major = major; minor = minor; patch = 0; prerelease = none }

parse_tests :
    (parse "1.0" ≡ some (version 1 0))
    × (parse "1.2.3a4\n"
        ≡ some (record { major = 1; minor = 2; patch = 3; prerelease = some (alpha, 4) }))
    × (parse "1" ≡ none)
    × (parse "1.x" ≡ none)
    × (version_str (version 3 14) ≡ "3.14")
unfolding parse version_str
parse_tests = (refl, refl, refl, refl, refl)

letter_beq : Letter → Letter → Bool
letter_beq alpha alpha = true
letter_beq beta beta = true
letter_beq _ _ = false

prerelease_beq : Option (Letter × ℕ) → Option (Letter × ℕ) → Bool
unfolding letter_beq
prerelease_beq none none = true
prerelease_beq (some (k, m)) (some (l, n)) = letter_beq k l && m == n
prerelease_beq _ _ = false

-- v == w
unfoldable pub version_beq : StrictVersion → StrictVersion → Bool
unfolding prerelease_beq
version_beq v w =
    v.major == w.major
    && v.minor == w.minor
    && v.patch == w.patch
    && prerelease_beq v.prerelease w.prerelease

letter_beq_refl : (l : Letter) → letter_beq l l ≡ true
unfolding letter_beq
letter_beq_refl alpha = refl
letter_beq_refl beta = refl

prerelease_beq_refl : (p : Option (Letter × ℕ)) → prerelease_beq p p ≡ true
unfolding prerelease_beq
prerelease_beq_refl none = refl
prerelease_beq_refl (some (l, n)) = rw (letter_beq_refl l, ==_refl n) refl

pub version_beq_refl : (v : StrictVersion) → version_beq v v ≡ true
unfolding version_beq
version_beq_refl v =
    simp (==_refl v.major, ==_refl v.minor, ==_refl v.patch, prerelease_beq_refl v.prerelease)
