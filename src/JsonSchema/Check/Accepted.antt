-- ===== src/JsonSchema/Check/Accepted.antt =====
-- What an accepted schema has.
use hedwig_python.Prelude.{
  ℕ, zero, suc, String, ◌≡◌, ◌≢◌, refl, true, Option, none, some, List, [], ◌∷◌, ◌++◌, ==_iff,
  nat_eq, string_eq, pair_eq, ◌⊎◌, inl, inr, arith, ap, subst, ◌∙◌, All, Bool-cases,
}
use hedwig_python.Python.Dict.{get, has_key}
use hedwig_python.Python.Exn.{ok, key_error, from_option, >>=-eq-ok, ok-inj}
use hedwig_python.Python.Value.{
  Key, name, other_key, Value, str, dict, Fields, end, field, to_entries, key_eq,
}
use hedwig_python.Version.{StrictVersion, parse}
use hedwig_python.JsonSchema.{subscript}
use hedwig_python.JsonSchema.Check.{
  Issue, wrong_major, issue_if, check_parsed, major_of, differs, contains, check_full_version,
  check_definition, pattern_issue, check_versions, check_type, check_types, pairs_of, is_found,
  missing, raise_if, check_found, check_schemas, check_schema,
}

-- A full version of a given major version.
pub record IsFullVersion (major : ℕ) (v : Value) : Type 0 where
  pub written : String
  pub version : StrictVersion
  pub is_text : v ≡ str written
  pub parsed : parse written ≡ some version
  pub same_major : version.major ≡ major

full_version :
    (t : Key) (p : String) (m : ℕ) (v : Value)
    → check_full_version t p (some m) v ≡ ok []
    → (m ≡ 0) ⊎ IsFullVersion m v
unfolding check_full_version
full_version t p zero v h = inl refl
full_version t p (suc m) (str (String.◌∷◌ c s)) h = of_parsed (parse (String.◌∷◌ c s)) refl h
  where
    same :
        (v : StrictVersion)
        → ok (issue_if (differs (some (suc m)) v.major) (wrong_major t p)) ≡ ok []
        → v.major ≡ suc m
    same v h = ground (arith, ==_iff (suc m) v.major)

    of_parsed :
        (o : Option StrictVersion)
        → parse (String.◌∷◌ c s) ≡ o
        → check_parsed t p (some (suc m)) o ≡ ok []
        → (suc m ≡ 0) ⊎ IsFullVersion (suc m) (str (String.◌∷◌ c s))
    of_parsed none e h = cc
    of_parsed (some v) e h = inr (record {
      written = String.◌∷◌ c s;
      version = v;
      is_text = refl;
      parsed = e;
      same_major = same v h;
    })
full_version t p (suc m) _ h = ground arith

-- What every definition of an accepted schema has: a pattern with a major version, and fields with
-- a full version of that, if it is not 0.
pub record IsDefined (p : String) (definition : Value) : Type 0 where
  pub major : ℕ
  pub fields : Fields
  pub full : Value
  pub pattern : major_of p ≡ some major
  pub is_dict : definition ≡ dict fields
  pub has_full : get (name "x-version") (to_entries fields) ≡ some full
  pub full_version : (major ≡ 0) ⊎ IsFullVersion major full

from_option-eq-ok : (o : Option Value) (v : Value) → from_option key_error o ≡ ok v → o ≡ some v
from_option-eq-ok none v h = cc
from_option-eq-ok (some w) v h = cc

-- Of a definition that passes the tests, and a pattern that has a major version.
definition_lem :
    (t : Key) (p : String) (m : ℕ) (definition : Value)
    → major_of p ≡ some m
    → check_definition t p (some m) definition ≡ ok []
    → IsDefined p definition
unfolding check_definition contains subscript
definition_lem t p m (dict fs) e h =
    elim (Bool-cases (has_key (name "x-version") (to_entries fs))) [
      | inl found ↦
          let (v, got, tested) =
            >>=-eq-ok (from_option key_error (get (name "x-version") (to_entries fs)))
              (check_full_version t p (some m)) (rw found at h) in
          record {
            major = m;
            fields = fs;
            full = v;
            pattern = e;
            is_dict = refl;
            has_full = from_option-eq-ok _ v got;
            full_version = full_version t p m v tested;
          }
      | inr lost ↦ ground (arith, lost)
    ]
definition_lem t p m _ e h = ground arith

abbrev pub AllDefined : Fields → Type 0
AllDefined end = Unit
AllDefined (field (name p) definition rest) = IsDefined p definition × AllDefined rest
AllDefined (field (other_key n) definition rest) = ⊥

-- A message type has some versions, each defined.
pub record IsVersioned (value : Value) : Type 0 where
  pub versions : Fields
  pub is_dict : value ≡ dict versions
  pub some_version : versions ≢ end
  pub defined : AllDefined versions

abbrev pub AllVersioned : Fields → Type 0
AllVersioned end = Unit
AllVersioned (field t value rest) = IsVersioned value × AllVersioned rest

nothing : (xs ys : List Issue) → xs ++ ys ≡ [] → (xs ≡ []) × (ys ≡ [])
nothing [] ys h = (refl, h)
nothing (x ∷ xs) ys h = cc

major_found :
    (t : Key) (p : String) (o : Option ℕ) → pattern_issue t p o ≡ [] → (m : ℕ) × (o ≡ some m)
major_found t p none h = cc
major_found t p (some m) h = (m, refl)

versions_lem : (t : Key) (fs : Fields) → check_versions t fs ≡ ok [] → AllDefined fs
unfolding check_versions
versions_lem t end h = tt
versions_lem t (field (other_key n) definition rest) h = cc
versions_lem t (field (name p) definition rest) h =
    let (issues, tested, h₁) = >>=-eq-ok (check_definition t p (major_of p) definition) _ h in
    let (more, others, same) = >>=-eq-ok (check_versions t rest) _ h₁ in
    let (no_pattern, h₂) =
      nothing (pattern_issue t p (major_of p)) (issues ++ more) (ok-inj same) in
    let (no_issues, no_more) = nothing issues more h₂ in
    let (m, found) = major_found t p (major_of p) no_pattern in
    let passed : check_definition t p (some m) definition ≡ ok [] =
      subst (λ o. check_definition t p o definition ≡ ok []) found (tested ∙ ap ok no_issues) in
    (definition_lem t p m definition found passed, versions_lem t rest (others ∙ ap ok no_more))

type_lem : (t : Key) (value : Value) → check_type t value ≡ ok [] → IsVersioned value
type_lem t (dict (field k v fs)) h = record {
  versions = field k v fs;
  is_dict = refl;
  some_version = λ e. cc;
  defined = versions_lem t (field k v fs) h;
}
type_lem t _ h = ground arith

types_lem : (ts : Fields) → check_types ts ≡ ok [] → AllVersioned ts
unfolding check_types
types_lem end h = tt
types_lem (field t value rest) h =
    let (issues, tested, h₁) = >>=-eq-ok (check_type t value) _ h in
    let (more, others, same) = >>=-eq-ok (check_types rest) _ h₁ in
    let (no_issues, no_more) = nothing issues more (ok-inj same) in
    (type_lem t value (tested ∙ ap ok no_issues), types_lem rest (others ∙ ap ok no_more))

missing_lem :
    (keys : List (String × String)) (pairs : List (Key × Key))
    → missing keys pairs ≡ []
    → All (λ k. is_found k pairs ≡ true) keys
unfolding missing
missing_lem [] pairs h = tt
missing_lem (k ∷ keys) pairs h = elim (Bool-cases (is_found k pairs)) [
  | inl found ↦ (found, missing_lem keys pairs (rw found at h))
  | inr lost ↦ ground (arith, lost)
]

raised : (issues : List Issue) → raise_if issues ≡ ok tt → issues ≡ []
raised [] h = refl
raised (i ∷ issues) h = cc

found_lem :
    (keys : List (String × String)) (o : Option Value)
    → check_found keys o ≡ ok []
    → (types : Fields) × (o ≡ some (dict types)) × (check_schemas keys (dict types) ≡ ok [])
found_lem keys none h = cc
found_lem keys (some (dict end)) h = cc
found_lem keys (some (dict (field k v fs))) h = (field k v fs, refl, h)
found_lem keys (some _) h = ground arith

pub record IsComplete (keys : List (String × String)) (schema : Value) : Type 0 where
  pub fields : Fields
  pub types : Fields
  pub is_dict : schema ≡ dict fields
  pub has_schemas : get (name "schemas") (to_entries fields) ≡ some (dict types)
  pub versioned : AllVersioned types
  pub registered : All (λ k. is_found k (pairs_of types) ≡ true) keys

-- A schema that `_check_schema` accepts has types, each with versions, each of a pattern with a major
-- version and with a full version of that major version, if it is not 0; and every message type and
-- version that is routed or has a callback is among them.
pub check_schema-IsComplete :
    (keys : List (String × String)) (schema : Value)
    → check_schema keys schema ≡ ok tt
    → IsComplete keys schema
unfolding check_schema
check_schema-IsComplete keys (dict fs) h =
    let (issues, collected, none_raised) =
      >>=-eq-ok (check_found keys (get (name "schemas") (to_entries fs))) raise_if h in
    let (types, has_schemas, passed) =
      found_lem keys (get (name "schemas") (to_entries fs))
        (collected ∙ ap ok (raised issues none_raised)) in
    let (type_issues, tested, same) = >>=-eq-ok (check_types types) _ passed in
    let (no_issues, none_missing) =
      nothing type_issues (missing keys (pairs_of types)) (ok-inj same) in
    record {
      fields = fs;
      types = types;
      is_dict = refl;
      has_schemas = has_schemas;
      versioned = types_lem types (tested ∙ ap ok no_issues);
      registered = missing_lem keys (pairs_of types) none_missing;
    }
check_schema-IsComplete keys _ h = cc
