-- ===== src/Text/Prefix.antt =====
-- `s.startswith(prefix)`.
use hedwig_python.Prelude.{code, String, ◌≡◌, refl, Bool, true, false, ◌==◌, nat_eq, ==_refl}
use Prim.Native.String.{◌++◌}
use Prim.Native.String.append

unfoldable pub starts_with : String → String → Bool
starts_with s String.[] = true
starts_with String.[] (String.◌∷◌ p ps) = false
starts_with (String.◌∷◌ c s) (String.◌∷◌ p ps) = elim (code c == code p) [
  | true ↦ starts_with s ps
  | false ↦ false
]

pub starts_with-append : (p s : String) → starts_with (p ++ s) p ≡ true
unfolding starts_with
starts_with-append String.[] s = refl
starts_with-append (String.◌∷◌ c p) s =
    rw (append.cons c p s) (rw (==_refl (code c), starts_with) (starts_with-append p s))

reserved : starts_with "hedwig_id" "hedwig_" ≡ true
unfolding starts_with
reserved = refl
