-- ===== src/JsonSchema/Formats.antt =====
-- The format `human-uuid` of hedwig/validators/jsonschema.py.
pub mod HumanUuid
use hedwig_python.Prelude.{
  ℕ, zero, suc, Char, code, String, Bool, true, false, ◌&&◌, ◌||◌, Option, none, some, ◌==◌, leb,
  nat_eq, if◌then◌else◌,
}
use hedwig_python.Python.Value.{Value, str}
use hedwig_python.Version.{at_end}

-- [0-9a-f]
abbrev pub is_hex : Char → Bool
is_hex c = (leb b'0' (code c) && leb (code c) b'9') || (leb b'a' (code c) && leb (code c) b'f')

-- [0-9a-f]{n}, and what is left behind it
unfoldable pub hex_run : ℕ → String → Option String
hex_run zero s = some s
hex_run (suc n) String.[] = none
hex_run (suc n) (String.◌∷◌ c s) = let rest = hex_run n s in if is_hex c then rest else none

abbrev pub hyphen : String → Option String
hyphen String.[] = none
hyphen (String.◌∷◌ c s) = if code c == b'-' then some s else none

infixl 5 ◌>>=◌
abbrev pub ◌>>=◌ : {A B : Type 0} → Option A → (A → Option B) → Option B
none >>= f = none
some a >>= f = f a

-- The pattern `_human_uuid_re` up to its `$`.
unfoldable pub uuid_runs : String → Option String
unfolding hex_run
uuid_runs s =
    hex_run 8 s
    >>= hyphen
    >>= hex_run 4
    >>= hyphen
    >>= hex_run 4
    >>= hyphen
    >>= hex_run 4
    >>= hyphen
    >>= hex_run 12

abbrev pub ends : Option String → Bool
ends none = false
ends (some rest) = at_end rest

unfoldable pub check_human_uuid : Value → Bool
unfolding uuid_runs at_end
check_human_uuid (str s) = ends (uuid_runs s)
check_human_uuid _ = false
