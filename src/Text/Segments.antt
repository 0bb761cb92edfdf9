-- ===== src/Text/Segments.antt =====
-- The pattern `([^/]+)/([^/]+)$` under `search`: its groups are the last two segments of the text,
-- where segments are what stands between slashes, and neither may be empty.
use hedwig_python.Prelude.{
  Char, code, String, ◌≡◌, refl, Bool, false, ◌||◌, ◌≢◌, inl, inr, Bool-cases, Option, none, some,
  List, [], ◌∷◌, ◌++◌, arith, ◌==◌, ==_ne, nat_eq, string_eq, if◌then◌else◌,
}
use Prim.Native.String.{◌++◌ as ◌<>◌}
use Prim.Native.String.append
use mathlib.Core.List.{cons-ne-nil}

-- A character in front of the first segment.
abbrev extend : Char → List String → List String
extend c [] = []
extend c (x ∷ xs) = String.◌∷◌ c x ∷ xs

unfoldable pub split_slash : String → List String
split_slash String.[] = "" ∷ []
split_slash (String.◌∷◌ c s) =
    let rest = split_slash s in if code c == b'/' then "" ∷ rest else extend c rest

abbrev pub last_two : List String → Option (String × String)
last_two [] = none
last_two (x ∷ []) = none
last_two (x ∷ y ∷ []) = some (x, y)
last_two (x ∷ y ∷ z ∷ rest) = last_two (y ∷ z ∷ rest)

abbrev both_nonempty : Option (String × String) → Option (String × String)
both_nonempty none = none
both_nonempty (some (x, y)) = if x == "" || y == "" then none else some (x, y)

unfoldable pub search_schema : String → Option (String × String)
unfolding split_slash
search_schema s = both_nonempty (last_two (split_slash s))

search_tests :
    (search_schema "https://h/schema#/schemas/trip.created/1.0" ≡ some ("trip.created", "1.0"))
    × (search_schema "a//1.0" ≡ none)
    × (search_schema "a/1.0/" ≡ none)
    × (search_schema "1.0" ≡ none)
unfolding search_schema
search_tests = (refl, refl, refl, refl)

-- No slash in a text.
unfoldable pub has_slash : String → Bool
has_slash String.[] = false
has_slash (String.◌∷◌ c s) = code c == b'/' || has_slash s

extend-ne-nil : (c : Char) (xs : List String) → xs ≢ [] → extend c xs ≢ []
extend-ne-nil c [] h = h
extend-ne-nil c (x ∷ xs) h = cons-ne-nil _ xs

split_slash-ne-nil : (s : String) → split_slash s ≢ []
unfolding split_slash
split_slash-ne-nil String.[] = cons-ne-nil "" []
split_slash-ne-nil (String.◌∷◌ c s) = elim (Bool-cases (code c == b'/')) [
  | inl slash ↦ rw slash (cons-ne-nil "" _)
  | inr other ↦ rw other (extend-ne-nil c (split_slash s) (split_slash-ne-nil s))
]

extend-append : (c : Char) (xs ys : List String) → xs ≢ [] → extend c (xs ++ ys) ≡ extend c xs ++ ys
extend-append c [] ys h = absurd (h refl)
extend-append c (x ∷ xs) ys h = refl

-- A slash ends a segment.
split_slash-append :
    (p q : String) → split_slash (p <> String.◌∷◌ "/" q) ≡ split_slash p ++ split_slash q
unfolding split_slash
split_slash-append String.[] q = rw (append.nil (String.◌∷◌ "/" q))
split_slash-append (String.◌∷◌ c p) q = rw (append.cons c p (String.◌∷◌ "/" q)) (
    rw (split_slash-append p q) (elim (Bool-cases (code c == b'/')) [
      | inl slash ↦ rw slash
      | inr other ↦
          rw other (extend-append c (split_slash p) (split_slash q) (split_slash-ne-nil p))
    ]))

-- A text without a slash is one segment.
split_slash_whole : (s : String) → has_slash s ≡ false → split_slash s ≡ s ∷ []
unfolding split_slash has_slash
split_slash_whole String.[] h = refl
split_slash_whole (String.◌∷◌ c s) h = ground (arith, split_slash_whole s)

last_two-append : (xs : List String) (x y : String) → last_two (xs ++ x ∷ y ∷ []) ≡ some (x, y)
last_two-append [] x y = refl
last_two-append (a ∷ []) x y = refl
last_two-append (a ∷ b ∷ []) x y = refl
last_two-append (a ∷ b ∷ c ∷ xs) x y = last_two-append (b ∷ c ∷ xs) x y

-- The pattern finds the segments that were joined last, whatever stands before them.
pub search_schema-joined :
    (root type version : String)
    → has_slash type ≡ false
    → has_slash version ≡ false
    → type ≢ ""
    → version ≢ ""
    → search_schema (root <> String.◌∷◌ "/" (type <> String.◌∷◌ "/" version)) ≡ some (type, version)
unfolding search_schema
search_schema-joined root type version ht hv nt nv =
    rw (split_slash-append root (type <> String.◌∷◌ "/" version)) (
      rw (split_slash-append type version) (
        rw (split_slash_whole type ht, split_slash_whole version hv)
          (rw (last_two-append (split_slash root) type version)
            (rw (==_ne type "" nt) (rw (==_ne version "" nv) refl)))))

-- So it does where nothing stands before them.
pub search_schema-bare :
    (type version : String)
    → has_slash type ≡ false
    → has_slash version ≡ false
    → type ≢ ""
    → version ≢ ""
    → search_schema (type <> String.◌∷◌ "/" version) ≡ some (type, version)
unfolding search_schema
search_schema-bare type version ht hv nt nv = rw (split_slash-append type version) (
    rw (split_slash_whole type ht, split_slash_whole version hv)
      (rw (==_ne type "" nt) (rw (==_ne version "" nv) refl)))

pub has_slash-append : (s t : String) → has_slash (s <> t) ≡ (has_slash s || has_slash t)
unfolding has_slash
has_slash-append String.[] t = rw (append.nil t)
has_slash-append (String.◌∷◌ c s) t = rw (append.cons c s t) (ground (arith, has_slash-append s t))
