-- ===== src/JsonSchema/Formats/HumanUuid.antt =====
-- What `_check_human_uuid` of hedwig/validators/jsonschema.py accepts.
use Prim.Native.String.append
use Prim.Native.String.{◌++◌ as ◌<>◌}
use hedwig_python.Prelude.{
  ℕ, zero, suc, Char, code, String, ◌≡◌, refl, sym, ap, ◌∙◌, subst, ◌↔◌, true, false, Bool-cases,
  inl, inr, Option, none, some, arith, ◌==◌, nat_eq, ==_iff,
}
use hedwig_python.Python.Value.{Value, str}
use hedwig_python.Text.Utf8.RoundTrip.{code-inj}
use hedwig_python.Version.{at_end}
use hedwig_python.JsonSchema.Formats.{
  is_hex, hex_run, hyphen, ◌>>=◌, uuid_runs, ends, check_human_uuid,
}

-- A text of `n` hexadecimal digits, with small letters.
abbrev pub IsRun : ℕ → String → Type 0
IsRun zero String.[] = Unit
IsRun zero (String.◌∷◌ c s) = false ≡ true
IsRun (suc n) String.[] = false ≡ true
IsRun (suc n) (String.◌∷◌ c s) = (is_hex c ≡ true) × IsRun n s

>>=-eq-some :
    {A B : Type 0} (o : Option A) (f : A → Option B) {b : B}
    → (o >>= f) ≡ some b
    → (a : A) × (o ≡ some a) × (f a ≡ some b)
>>=-eq-some none f h = cc
>>=-eq-some (some a) f h = (a, refl, h)

abbrev from_some : String → Option String → String
from_some s none = s
from_some s (some rest) = rest

hex_run-split :
    (n : ℕ) (s rest : String)
    → hex_run n s ≡ some rest
    → (run : String) × IsRun n run × (s ≡ run <> rest)
unfolding hex_run
hex_run-split zero s rest h = ("", tt, ap (λ o. from_some s o) h ∙ sym (append.nil rest))
hex_run-split (suc n) String.[] rest h = cc
hex_run-split (suc n) (String.◌∷◌ c s) rest h = elim (Bool-cases (is_hex c)) [
  | inl hex ↦
      let (run, is_run, e) = hex_run-split n s rest (ground arith) in
      (
        String.◌∷◌ c run,
        (hex, is_run),
        ap (λ (x : String). String.◌∷◌ c x) e ∙ sym (append.cons c run rest),
      )
  | inr other ↦ absurd (ground arith)
]

hex_run-append : (n : ℕ) (run rest : String) → IsRun n run → hex_run n (run <> rest) ≡ some rest
unfolding hex_run
hex_run-append zero String.[] rest h = ap some (append.nil rest)
hex_run-append zero (String.◌∷◌ c run) rest h = cc
hex_run-append (suc n) String.[] rest h = cc
hex_run-append (suc n) (String.◌∷◌ c run) rest (hex, is_run) =
    rw (append.cons c run rest) (rw hex (hex_run-append n run rest is_run))

hyphen_here :
    (c : Char) (s rest : String)
    → (code c == b'-') ≡ true
    → hyphen (String.◌∷◌ c s) ≡ some rest
    → some s ≡ some rest
hyphen_here c s rest is_hyphen h = rw is_hyphen at h

hyphen-split : (s rest : String) → hyphen s ≡ some rest → s ≡ "-" <> rest
hyphen-split String.[] rest h = cc
hyphen-split (String.◌∷◌ c s) rest h = elim (Bool-cases (code c == b'-')) [
  | inl is_hyphen ↦
      let same = code-inj c "-" ((==_iff (code c) b'-').0 is_hyphen) in
      let left = ap (from_some s) (hyphen_here c s rest is_hyphen h) in
      ap (λ (d : Char). String.◌∷◌ d s) same
      ∙ ap (λ (x : String). String.◌∷◌ "-" x) left
      ∙ sym (append.cons "-" "" rest ∙ ap (λ (x : String). String.◌∷◌ "-" x) (append.nil rest))
  | inr other ↦ absurd (ground arith)
]

hyphen-append : (rest : String) → hyphen ("-" <> rest) ≡ some rest
hyphen-append rest = rw (append.cons "-" "" rest) (rw (append.nil rest) refl)

-- Five runs of hexadecimal digits with hyphens between them, at the end of the text, or before the
-- line feed that ends it.
pub record IsHumanUuid (s : String) : Type 0 where
  pub time_low : String
  pub time_mid : String
  pub time_high : String
  pub clock : String
  pub node : String
  pub ending : String
  pub runs : IsRun 8 time_low × IsRun 4 time_mid × IsRun 4 time_high × IsRun 4 clock × IsRun 12 node
  pub is_end : at_end ending ≡ true
  pub joined :
      s
      ≡ time_low
        <> ("-"
            <> (time_mid <> ("-" <> (time_high <> ("-" <> (clock <> ("-" <> (node <> ending))))))))

-- One run, a hyphen, and the rest.
hyphen-hex_run :
    (n : ℕ) (s rest : String)
    → (hex_run n s >>= hyphen) ≡ some rest
    → (run : String) × IsRun n run × (s ≡ run <> ("-" <> rest))
hyphen-hex_run n s rest h =
    let (left, ran, hyphened) = >>=-eq-some (hex_run n s) hyphen h in
    let (run, is_run, e) = hex_run-split n s left ran in
    (run, is_run, e ∙ ap (λ (x : String). run <> x) (hyphen-split left rest hyphened))

hyphen-hex_run-append :
    (n : ℕ) (run rest : String)
    → IsRun n run
    → (hex_run n (run <> ("-" <> rest)) >>= hyphen) ≡ some rest
hyphen-hex_run-append n run rest h = rw (hex_run-append n run ("-" <> rest) h) (hyphen-append rest)

matched : (s : String) → IsHumanUuid s → ends (uuid_runs s) ≡ true
unfolding uuid_runs
matched s u = rw u.joined (
    rw (hyphen-hex_run-append 8 u.time_low _ u.runs.0) (
      rw (hyphen-hex_run-append 4 u.time_mid _ u.runs.1) (
        rw (hyphen-hex_run-append 4 u.time_high _ u.runs.2) (
          rw (hyphen-hex_run-append 4 u.clock _ u.runs.3)
            (rw (hex_run-append 12 u.node u.ending u.runs.4) u.is_end)))))

ends-some :
    (o : Option String) → ends o ≡ true → (rest : String) × (o ≡ some rest) × (at_end rest ≡ true)
ends-some none h = cc
ends-some (some rest) h = (rest, refl, h)

next_field :
    (n : ℕ) (o : Option String) {rest : String}
    → (o >>= hex_run n >>= hyphen) ≡ some rest
    → (s : String) × (run : String) × (o ≡ some s) × IsRun n run × (s ≡ run <> ("-" <> rest))
next_field n none h = cc
next_field n (some s) {rest} h =
    let (run, is_run, e) = hyphen-hex_run n s rest h in (s, run, refl, is_run, e)

is_uuid : (s : String) → ends (uuid_runs s) ≡ true → IsHumanUuid s
unfolding uuid_runs
is_uuid s h =
    let (ending, ran, is_end) = ends-some (uuid_runs s) h in
    let first = hex_run 8 s >>= hyphen in
    let second = first >>= hex_run 4 >>= hyphen in
    let third = second >>= hex_run 4 >>= hyphen in
    let (s₄, h₄, last_run) = >>=-eq-some (third >>= hex_run 4 >>= hyphen) (hex_run 12) ran in
    let (node, is_node, e₅) = hex_run-split 12 s₄ ending last_run in
    let (s₃, clock, h₃, is_clock, e₄) = next_field 4 third h₄ in
    let (s₂, time_high, h₂, is_high, e₃) = next_field 4 second h₃ in
    let (s₁, time_mid, h₁, is_mid, e₂) = next_field 4 first h₂ in
    let (time_low, is_low, e₁) = hyphen-hex_run 8 s s₁ h₁ in
    record {
      time_low = time_low;
      time_mid = time_mid;
      time_high = time_high;
      clock = clock;
      node = node;
      ending = ending;
      runs = (is_low, is_mid, is_high, is_clock, is_node);
      is_end = is_end;
      joined = rw (← e₅) (rw (← e₄) (rw (← e₃) (rw (← e₂) e₁)));
    }

-- What `_check_human_uuid` accepts: of texts, exactly those of five runs of 8, 4, 4, 4 and 12
-- hexadecimal digits with small letters, with hyphens between them, and nothing behind them but one
-- line feed at most; and no other value.
pub check_human_uuid_exact :
    (v : Value) → (check_human_uuid v ≡ true) ↔ ((s : String) × (v ≡ str s) × IsHumanUuid s)
unfolding check_human_uuid
check_human_uuid_exact (str s) = (
  λ h. (s, refl, is_uuid s h),
  λ (t, e, u). subst (λ w. check_human_uuid w ≡ true) (sym e) (matched t u),
)
check_human_uuid_exact v = (λ h. cc, λ (t, e, u). cc)
