-- ===== src/Version/RoundTrip.antt =====
-- A printed version is read back.
use hedwig_python.Prelude.{
  ℕ, zero, suc, String, ◌≡◌, refl, false, Option, none, some, ◌==◌, nat_eq, arith, ap, ◌≢◌, ◌∙◌,
}
use hedwig_python.Text.Decimal.{
  is_digit, span_digits, decimal_onto, StartsDigit, StartsNoDigit, decimal_onto-StartsDigit,
  span_digits-decimal_onto,
}
use hedwig_python.Text.NoSlash.{has_slash-decimal_onto}
use hedwig_python.Text.Segments.{has_slash}
use hedwig_python.Version.{
  Letter, alpha, beta, StrictVersion, number, dot, optional_patch, tagged, optional_prerelease,
  at_end, finish, parse, prerelease_str, patch_str, version_str,
}

suc-ne-zero : (n : ℕ) → (suc n == 0) ≡ false
suc-ne-zero n = ground arith

number_of : (t : String) → StartsDigit t → number t ≡ some (span_digits 0 t)
unfolding number
number_of String.[] h = absurd h
number_of (String.◌∷◌ c s) h = rw h

number-decimal_onto :
    (n : ℕ) (rest : String) → StartsNoDigit rest → number (decimal_onto n rest) ≡ some (n, rest)
number-decimal_onto n rest h =
    rw (number_of (decimal_onto n rest) (decimal_onto-StartsDigit n rest))
      (ap some (span_digits-decimal_onto n rest h))

prerelease_str-StartsNoDigit : (p : Option (Letter × ℕ)) → StartsNoDigit (prerelease_str p)
unfolding prerelease_str is_digit
prerelease_str-StartsNoDigit none = tt
prerelease_str-StartsNoDigit (some (alpha, n)) = refl
prerelease_str-StartsNoDigit (some (beta, n)) = refl

patch_str-StartsNoDigit :
    (n : ℕ) (rest : String) → StartsNoDigit rest → StartsNoDigit (patch_str n rest)
unfolding patch_str is_digit
patch_str-StartsNoDigit zero rest h = h
patch_str-StartsNoDigit (suc n) rest h = rw (suc-ne-zero n) refl

optional_prerelease-prerelease_str :
    (p : Option (Letter × ℕ)) → optional_prerelease (prerelease_str p) ≡ some (p, "")
unfolding optional_prerelease prerelease_str tagged
optional_prerelease-prerelease_str none = refl
optional_prerelease-prerelease_str (some (alpha, n)) = rw (number-decimal_onto n "" tt) refl
optional_prerelease-prerelease_str (some (beta, n)) = rw (number-decimal_onto n "" tt) refl

optional_patch-patch_str :
    (n : ℕ) (p : Option (Letter × ℕ))
    → optional_patch (patch_str n (prerelease_str p)) ≡ some (n, prerelease_str p)
unfolding optional_patch patch_str
optional_patch-patch_str zero none = unfold prerelease_str in refl
optional_patch-patch_str zero (some (alpha, n)) = unfold prerelease_str in refl
optional_patch-patch_str zero (some (beta, n)) = unfold prerelease_str in refl
optional_patch-patch_str (suc n) p =
    rw (suc-ne-zero n)
      (number-decimal_onto (suc n) (prerelease_str p) (prerelease_str-StartsNoDigit p))

-- StrictVersion(str(v)) == v
pub parse-version_str : (v : StrictVersion) → parse (version_str v) ≡ some v
unfolding parse version_str dot finish at_end
parse-version_str v =
    let tail = prerelease_str-StartsNoDigit v.prerelease in
    rw
      (number-decimal_onto v.major
        (String.◌∷◌ "." (decimal_onto v.minor (patch_str v.patch (prerelease_str v.prerelease))))
        refl)
      (rw
        (number-decimal_onto v.minor (patch_str v.patch (prerelease_str v.prerelease))
          (patch_str-StartsNoDigit v.patch _ tail))
        (rw (optional_patch-patch_str v.patch v.prerelease)
          (rw (optional_prerelease-prerelease_str v.prerelease) refl)))

prerelease_str-no_slash : (p : Option (Letter × ℕ)) → has_slash (prerelease_str p) ≡ false
unfolding prerelease_str has_slash
prerelease_str-no_slash none = refl
prerelease_str-no_slash (some (alpha, n)) = has_slash-decimal_onto n ""
prerelease_str-no_slash (some (beta, n)) = has_slash-decimal_onto n ""

patch_str-no_slash :
    (n : ℕ) (rest : String) → has_slash rest ≡ false → has_slash (patch_str n rest) ≡ false
unfolding patch_str has_slash
patch_str-no_slash zero rest h = h
patch_str-no_slash (suc n) rest h = rw (suc-ne-zero n) (has_slash-decimal_onto (suc n) rest ∙ h)

dotted-no_slash :
    (n : ℕ) (rest : String) → has_slash (String.◌∷◌ "." (decimal_onto n rest)) ≡ has_slash rest
unfolding has_slash
dotted-no_slash n rest = has_slash-decimal_onto n rest

pub version_str-no_slash : (v : StrictVersion) → has_slash (version_str v) ≡ false
unfolding version_str
version_str-no_slash v =
    has_slash-decimal_onto v.major _
    ∙ dotted-no_slash v.minor _
    ∙ patch_str-no_slash v.patch _ (prerelease_str-no_slash v.prerelease)

StartsDigit-nonempty : (t : String) → StartsDigit t → t ≢ ""
StartsDigit-nonempty String.[] h e = absurd h
StartsDigit-nonempty (String.◌∷◌ c s) h e = cc

pub version_str-nonempty : (v : StrictVersion) → version_str v ≢ ""
unfolding version_str
version_str-nonempty v = StartsDigit-nonempty _ (decimal_onto-StartsDigit v.major _)
