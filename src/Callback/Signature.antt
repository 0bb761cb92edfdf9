-- ===== src/Callback/Signature.antt =====
-- Which functions may be registered as callbacks.
use hedwig_python.Prelude.{
  ◌≡◌, refl, ◌≢◌, ◌↔◌, ◌⊎◌, inl, inr, Bool, true, false, List, [], ◌∷◌, arith, string_eq, ==_iff,
  ◌==◌, if◌then◌else◌, All,
}
use hedwig_python.Python.Exn.{ok, raise, configuration_error, guard, >>=-eq-ok}
use mathlib.Core.List.{cons-ne-nil}
use hedwig_python.Callback.{
  Kind, var_keyword, var_positional, positional, keyword_only, positional_only, Parameter, is_other,
  visit, scan, check_signature,
}

-- A parameter called `message`, not variadic, and annotated with `Message` or not at all.
pub record IsMessageParameter (p : Parameter) : Type 0 where
  pub no_kwargs : p.kind ≢ var_keyword
  pub no_args : p.kind ≢ var_positional
  pub name : p.name ≡ "message"
  pub annotation : is_other p.annotation ≡ false

named_to :
    (p : Parameter) (b : Bool)
    → p.kind ≢ var_keyword
    → p.kind ≢ var_positional
    → (if p.name == "message"
        then (if is_other p.annotation then raise configuration_error else ok true)
        else raise configuration_error)
      ≡ ok b
    → IsMessageParameter p × (b ≡ true)
named_to p b no_kwargs no_args h = (
  record {
    no_kwargs = no_kwargs;
    no_args = no_args;
    name = ground (arith, ==_iff p.name "message");
    annotation = ground arith;
  },
  ground arith,
)

visit_to :
    (p : Parameter) (k : Kind) (b : Bool)
    → p.kind ≡ k
    → visit k p ≡ ok b
    → IsMessageParameter p × (b ≡ true)
unfolding visit
visit_to p var_keyword b e h = cc
visit_to p var_positional b e h = cc
visit_to p positional b e h = named_to p b (λ f. cc) (λ f. cc) h
visit_to p keyword_only b e h = named_to p b (λ f. cc) (λ f. cc) h
visit_to p positional_only b e h = named_to p b (λ f. cc) (λ f. cc) h

visit_from : (p : Parameter) (k : Kind) → p.kind ≡ k → IsMessageParameter p → visit k p ≡ ok true
unfolding visit
visit_from p var_keyword e h = absurd (h.no_kwargs e)
visit_from p var_positional e h = absurd (h.no_args e)
visit_from p positional e h = ground (arith, ==_iff p.name "message", h.name, h.annotation)
visit_from p keyword_only e h = ground (arith, ==_iff p.name "message", h.name, h.annotation)
visit_from p positional_only e h = ground (arith, ==_iff p.name "message", h.name, h.annotation)

visit_cases :
    (p : Parameter) (k : Kind) → (visit k p ≡ ok true) ⊎ (visit k p ≡ raise configuration_error)
unfolding visit
visit_cases p positional = ground arith
visit_cases p keyword_only = ground arith
visit_cases p positional_only = ground arith
visit_cases p var_keyword = inr refl
visit_cases p var_positional = inr refl

scan_to :
    (found : Bool) (ps : List Parameter) (b : Bool)
    → scan found ps ≡ ok b
    → All IsMessageParameter ps
unfolding scan
scan_to found [] b h = tt
scan_to found (p ∷ rest) b h =
    let (found', visited, h') = >>=-eq-ok (visit p.kind p) (λ found'. scan found' rest) h in
    ((visit_to p p.kind found' refl visited).0, scan_to found' rest b h')

scan_from : (ps : List Parameter) → All IsMessageParameter ps → scan true ps ≡ ok true
unfolding scan
scan_from [] h = refl
scan_from (p ∷ rest) (here, there) = rw (visit_from p p.kind refl here) (scan_from rest there)

scan_cases :
    (found : Bool) (ps : List Parameter)
    → ((b : Bool) × (scan found ps ≡ ok b)) ⊎ (scan found ps ≡ raise configuration_error)
unfolding scan
scan_cases found [] = inl (found, refl)
scan_cases found (p ∷ rest) = elim (visit_cases p p.kind) [
  | inl e ↦ rw e (scan_cases true rest)
  | inr e ↦ inr (rw e)
]

check_signature_iff :
    (ps : List Parameter) → (check_signature ps ≡ ok tt) ↔ ((ps ≢ []) × All IsMessageParameter ps)
unfolding check_signature scan
check_signature_iff [] = (λ h. cc, λ h. absurd (h.0 refl))
check_signature_iff (p ∷ rest) = (
  λ h. (cons-ne-nil p rest, to h),
  λ h. rw (visit_from p p.kind refl h.1.0) (rw (scan_from rest h.1.1) refl),
)
  where
    to : check_signature (p ∷ rest) ≡ ok tt → All IsMessageParameter (p ∷ rest)
    to h =
        let (b, scanned, _) =
          >>=-eq-ok (scan false (p ∷ rest)) (λ b. guard b configuration_error) h in
        scan_to false (p ∷ rest) b scanned

-- A callback is accepted exactly when it has a parameter, and every parameter is called `message`,
-- is neither `*args` nor `**kwargs`, and is annotated with `Message` or not at all: a keyword-only
-- `message` is accepted too. Any other callback is a ConfigurationError.
pub check_signature_exact :
    (ps : List Parameter)
    → ((check_signature ps ≡ ok tt) ↔ ((ps ≢ []) × All IsMessageParameter ps))
      × ((check_signature ps ≡ ok tt) ⊎ (check_signature ps ≡ raise configuration_error))
check_signature_exact ps = (check_signature_iff ps, cases)
  where
    guarded :
        (b : Bool)
        → (guard b configuration_error ≡ ok tt)
          ⊎ (guard b configuration_error ≡ raise configuration_error)
    guarded true = inl refl
    guarded false = inr refl

    cases : (check_signature ps ≡ ok tt) ⊎ (check_signature ps ≡ raise configuration_error)
    cases = elim (scan_cases false ps) [
      | inl (b, e) ↦ unfold check_signature in rw e (guarded b)
      | inr e ↦ inr (unfold check_signature in rw e)
    ]
