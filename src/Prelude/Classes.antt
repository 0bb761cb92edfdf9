-- ===== src/Prelude/Classes.antt =====
-- Equality as an interface, so that one `==` serves numbers, texts and keys.
use Prim.Native.Nat.{ℕ}
use Prim.Native.String.{String}
use mathlib.Core.Path.{◌≡◌, refl, sym}
use mathlib.Core.Logic.{◌↔◌, ◌≢◌}
use mathlib.Core.Bool.{Bool, true, false, ◌&&◌}
use native.Mathlib.Omega.{arith}
use text.Mathlib.Text.{◌==◌ as str_beq}
use text.Mathlib.TextEquality.{eq_iff}
use hedwig_python.Prelude.Tests.{nat_beq, nat_beq_iff}

infix 50 ◌==◌
pub record Eq {ℓ} (K : Type ℓ) : Type ℓ where
  pub same_key : K → K → Bool
  pub same_key_iff : (j k : K) → (same_key j k ≡ true) ↔ (j ≡ k)

instance abbrev pub string_eq : Eq String
string_eq = record { same_key = str_beq; same_key_iff = eq_iff }

instance abbrev pub nat_eq : Eq ℕ
nat_eq = record { same_key = nat_beq; same_key_iff = nat_beq_iff }

abbrev pub ◌==◌ {ℓ} : {K : Type ℓ} ⦃i : Eq K⦄ → K → K → Bool
◌==◌ ⦃i⦄ j k = i.same_key j k

abbrev pub bool_beq : Bool → Bool → Bool
bool_beq true b = b
bool_beq false true = false
bool_beq false false = true

pub bool_beq_iff : (a b : Bool) → (bool_beq a b ≡ true) ↔ (a ≡ b)
bool_beq_iff true true = (λ h. refl, λ e. refl)
bool_beq_iff true false = (λ h. sym h, λ e. sym e)
bool_beq_iff false true = (λ h. h, λ e. e)
bool_beq_iff false false = (λ h. refl, λ e. refl)

instance abbrev pub bool_eq : Eq Bool
bool_eq = record { same_key = bool_beq; same_key_iff = bool_beq_iff }

-- Pairs of texts, as the keys of the registries are.
pub pair_beq_iff : (a b : String × String) → ((str_beq a.0 b.0 && str_beq a.1 b.1) ≡ true) ↔ (a ≡ b)
pair_beq_iff (s, t) (u, v) = ground (arith, eq_iff s u, eq_iff t v)

instance abbrev pub pair_eq : Eq (String × String)
pair_eq = record {
  same_key = λ a b. str_beq a.0 b.0 && str_beq a.1 b.1;
  same_key_iff = pair_beq_iff;
}

module _ {ℓ} {K : Type ℓ} ⦃i : Eq K⦄ where
  pub ==_iff : (j k : K) → ((j == k) ≡ true) ↔ (j ≡ k)
  ==_iff = i.same_key_iff

  pub ==_refl : (k : K) → (k == k) ≡ true
  ==_refl k = (i.same_key_iff k k).1 refl

  pub ==_ne : (j k : K) → j ≢ k → (j == k) ≡ false
  ==_ne j k h = ground (arith, i.same_key_iff j k)
