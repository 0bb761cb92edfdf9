-- ===== src/Protobuf/Check/Registered.antt =====
-- What `_check_schema` of hedwig/validators/protobuf.py accepts.
use hedwig_python.Prelude.{
  ℕ, String, ◌≡◌, ◌≢◌, refl, ap, ◌∙◌, Bool, true, false, not, Option, none, some, List, [], ◌∷◌,
  ◌++◌, ◌==◌, nat_eq, string_eq, All, All-append, Bool-cases, inl, inr,
}
use hedwig_python.Python.Dict.{get, has_key, put-fresh, get-snoc, get-append_left, has_key-none}
use hedwig_python.Python.Dict.Arranged.{found-All}
use hedwig_python.Python.Exn.{ok, guard, assertion_error, >>=-eq-ok, ok-inj}
use hedwig_python.JsonSchema.Check.{major_of}
use hedwig_python.Protobuf.{Library, numbered_eq, Messages}
use hedwig_python.Protobuf.Check.{
  Fault, fault_if, message_type_of, register, check_message, check_messages, check_major,
  check_keys, raise_if_any, check_schema, mismatch, class_parts, not_declared, zero_version,
  undefined_options, undefined_major_version,
}

parts_nil : {X : Type 0} (xs ys : List X) → xs ++ ys ≡ [] → (xs ≡ []) × (ys ≡ [])
parts_nil [] ys h = (refl, h)
parts_nil (x ∷ xs) ys h = cc

cons_ne : {X : Type 0} {x : X} {xs : List X} → (x ∷ xs) ≢ []
cons_ne h = cc

module _ {C M A : Type 0} (lib : Library C M A) where
  abbrev major : C → ℕ
  major c = (lib.options c).major_version

  -- A class stands at a type and its own major version.
  abbrev pub IsEntry : (String × ℕ) × C → Type 0
  IsEntry ((message_type, n), c) =
      (major c ≡ n) × ((n == 0) ≡ false) × ((message_type == "") ≡ false)

  record Added (c : C) (found : Messages C) (r : List (Fault C) × Messages C) : Type 0 where
    message_type : String
    typed : (message_type == "") ≡ false
    versioned : (major c == 0) ≡ false
    new : has_key (message_type, major c) found ≡ false
    added : r.1 ≡ found ++ ((message_type, major c), c) ∷ []

  registered :
      (c : C) (o : Option String) (found : Messages C)
      → (major c == 0) ≡ false
      → (register lib c o found).0 ≡ []
      → Added c found (register lib c o found)
  unfolding register
  registered c none found v h = cc
  registered c (some t) found v h = elim (Bool-cases (t == "")) [
    | inl e ↦ absurd (cons_ne (rw e at h))
    | inr e ↦ elim (Bool-cases (has_key (t, major c) found)) [
      | inl d ↦ absurd (cons_ne (rw d at (rw e at h)))
      | inr d ↦ rw e (
          rw d (record {
            message_type = t;
            typed = e;
            versioned = v;
            new = d;
            added = put-fresh (t, major c) c found d;
          }))
    ]
  ]

  accepted :
      (c : C) (found : Messages C)
      → (check_message lib c found).0 ≡ []
      → Added c found (check_message lib c found)
  unfolding check_message
  accepted c found h = elim (Bool-cases (major c == 0)) [
    | inl e ↦ absurd (
        cons_ne
          (parts_nil (fault_if (not (lib.options c).is_defined) (undefined_options c))
            (undefined_major_version c ∷ []) (rw e at h)).1)
    | inr e ↦
        let (undefined, others) =
          parts_nil (fault_if (not (lib.options c).is_defined) (undefined_options c))
            (mismatch lib c (class_parts (lib.class_name c))
              ++ (register lib c (message_type_of lib c) found).0)
            (rw e at h) in
        let (mismatched, unregistered) =
          parts_nil (mismatch lib c (class_parts (lib.class_name c)))
            (register lib c (message_type_of lib c) found).0 others in
        let r = registered c (message_type_of lib c) found e unregistered in
        rw e (record {
          message_type = r.message_type;
          typed = r.typed;
          versioned = r.versioned;
          new = r.new;
          added = r.added;
        })
  ]

  -- A class that can be looked up.
  pub record IsListed (messages : Messages C) (c : C) : Type 0 where
    pub message_type : String
    pub typed : (message_type == "") ≡ false
    pub listed : get (message_type, major c) messages ≡ some c

  record Extends (found final : Messages C) : Type 0 where
    entries : All IsEntry final
    keeps : (k : String × ℕ) (c : C) → get k found ≡ some c → get k final ≡ some c

  all-IsListed :
      (proto_messages : List C) (found : Messages C)
      → All IsEntry found
      → (check_messages lib proto_messages found).0 ≡ []
      → Extends found (check_messages lib proto_messages found).1
        × All (IsListed (check_messages lib proto_messages found).1) proto_messages
  unfolding check_messages
  all-IsListed [] found entries h = (record { entries = entries; keeps = λ k c e. e }, tt)
  all-IsListed (c ∷ rest) found entries h =
      let (here, there) = parts_nil (check_message lib c found).0 _ h in
      let a = accepted c found here in
      let new = ((a.message_type, major c), c) ∷ [] in
      let next : All IsEntry (check_message lib c found).1 =
        rw a.added (All-append IsEntry found new entries ((refl, a.versioned, a.typed), tt)) in
      let (more, others) = all-IsListed rest (check_message lib c found).1 next there in
      (
        record {
          entries = more.entries;
          keeps = λ k d e. more.keeps k d (rw a.added (get-append_left k d found new e));
        },
        (
          record {
            message_type = a.message_type;
            typed = a.typed;
            listed =
                more.keeps (a.message_type, major c) c
                  (rw a.added (get-snoc (a.message_type, major c) c found a.new));
          },
          others,
        ),
      )

-- A key of the routing or of the callbacks whose class is declared.
pub record IsDeclared {C M A : Type 0} (lib : Library C M A) (messages : Messages C)
    (key : String × String) : Type 0 where
  pub major_version : ℕ
  pub class : C
  pub has_major : major_of key.1 ≡ some major_version
  pub nonzero : (major_version == 0) ≡ false
  pub found : get (key.0, major_version) messages ≡ some class
  pub its_own : (lib.options class).major_version ≡ major_version

module _ {C M A : Type 0} (lib : Library C M A) (messages : Messages C)
    (entries : All (IsEntry lib) messages) where
  not_ok_nil : {f : Fault C} {fs : List (Fault C)} → ok (f ∷ fs) ≢ ok []
  not_ok_nil h = cc

  class_found :
      (t pattern : String) (n : ℕ) (o : Option C)
      → major_of pattern ≡ some n
      → (n == 0) ≡ false
      → get (t, n) messages ≡ o
      → (not (has_key (t, n) messages)) ≡ false
      → IsDeclared lib messages (t, pattern)
  class_found t pattern n none has_major nonzero e h =
      absurd (different (rw (has_key-none (t, n) messages e) at h))
    where
      different : true ≢ false
      different h = cc
  class_found t pattern n (some c) has_major nonzero e h = record {
    major_version = n;
    class = c;
    has_major = has_major;
    nonzero = nonzero;
    found = e;
    its_own = (found-All (IsEntry lib) messages (t, n) c entries e).0;
  }

  declared :
      (key : String × String) (o : Option ℕ)
      → major_of key.1 ≡ o
      → check_major key o messages ≡ ok []
      → IsDeclared lib messages key
  declared (t, pattern) none has_major h = absurd (not_ok_nil h)
  declared (t, pattern) (some n) has_major h =
      let (u, named, h₁) = >>=-eq-ok (guard (not (t == "")) assertion_error) _ h in
      let (nonzero, found) =
        parts_nil (fault_if (n == 0) (zero_version t))
          (fault_if (not (has_key (t, n) messages)) (not_declared t n)) (ok-inj h₁) in
      class_found t pattern n (get (t, n) messages) has_major
        (no_fault (n == 0) (zero_version t) nonzero) refl
        (no_fault (not (has_key (t, n) messages)) (not_declared t n) found)
    where
      no_fault : (b : Bool) (f : Fault C) → fault_if b f ≡ [] → b ≡ false
      no_fault true f h = absurd (cons_ne h)
      no_fault false f h = refl

  all-IsDeclared :
      (keys : List (String × String))
      → check_keys keys messages ≡ ok []
      → All (IsDeclared lib messages) keys
  unfolding check_keys
  all-IsDeclared [] h = tt
  all-IsDeclared (key ∷ keys) h =
      let (here, first, h₁) = >>=-eq-ok (check_major key (major_of key.1) messages) _ h in
      let (others, rest, same) = >>=-eq-ok (check_keys keys messages) _ h₁ in
      let (none_here, none_there) = parts_nil here others (ok-inj same) in
      (
        declared key (major_of key.1) refl (first ∙ ap ok none_here),
        all-IsDeclared keys (rest ∙ ap ok none_there),
      )

none_raised : {C : Type 0} (faults : List (Fault C)) → raise_if_any faults ≡ ok tt → faults ≡ []
none_raised [] h = refl
none_raised (f ∷ faults) h = cc

-- Message classes that `_check_schema` accepts are all registered, each with a type, at its own major
-- version; and every message type and version that is routed or has a callback has a major version
-- that is not 0, and a class of that major version is registered for it.
pub check_schema-IsDeclared :
    {C M A : Type 0} (lib : Library C M A) (keys : List (String × String)) (proto_messages : List C)
    (messages : Messages C)
    → check_schema lib keys proto_messages ≡ ok messages
    → All (IsListed lib messages) proto_messages × All (IsDeclared lib messages) keys
unfolding check_schema
check_schema-IsDeclared {C} lib keys proto_messages messages h =
    let checked = check_messages lib proto_messages [] in
    let (faults, tested, h₁) = >>=-eq-ok (check_keys keys checked.1) _ h in
    let (u, raised, same) = >>=-eq-ok (raise_if_any (checked.0 ++ faults)) _ h₁ in
    let (no_faults, no_others) =
      parts_nil checked.0 faults (none_raised (checked.0 ++ faults) raised) in
    let (more, listed) = all-IsListed lib proto_messages [] tt no_faults in
    rw (← ok-inj same)
      (listed, all-IsDeclared lib checked.1 more.entries keys (tested ∙ ap ok no_others))
