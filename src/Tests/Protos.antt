-- ===== src/Tests/Protos.antt =====
-- A concrete protobuf library: two classes of messages with one Boolean field, and one container that
-- can be written and read.
use hedwig_python.Prelude.{
  ℕ, String, ◌≡◌, ◌≢◌, refl, sym, ap, ◌∙◌, Bool, true, false, ◌&&◌, Option, none, some, List, [],
  ◌∷◌, ◌==◌, ==_iff, string_eq, nat_eq, pair_eq, arith, All, if◌then◌else◌, Bool-cases, inl, inr,
}
use hedwig_python.Python.Dict.{put, IsDict}
use hedwig_python.Python.Dict.Arranged.{IsArranged}
use hedwig_python.Python.Exn.{ok, raise, value_error, ok-inj, >>=-eq-ok}
use hedwig_python.Python.Value.{
  Value, name, str, int, dict, Entries, key_eq, of_entries, to_entries, to_entries-of_entries,
}
use hedwig_python.Protobuf.{Options, Container, Library, binary_coding, numbered_eq}
use hedwig_python.Protobuf.RoundTrip.{IsPrinting}
use hedwig_python.Protobuf.Boxed.{IsBoxing}
use hedwig_python.Protobuf.Boxed.Firehose.{IsLining}
use hedwig_python.Text.Base64.RoundTrip.{IsByte}
use hedwig_python.Tests.Toy.{same, same_sound, both}

pub data Kind : Type 0 where
  trip ping : Kind

pub record Note : Type 0 where
  pub kind : Kind
  pub is_on : Bool

-- What an Any can hold.
pub data Held : Type 0 where
  packed_note : Note → Held
  packed_word : String → Held

unfoldable pub kind_beq : Kind → Kind → Bool
kind_beq trip trip = true
kind_beq ping ping = true
kind_beq _ _ = false

unfoldable pub bool_beq : Bool → Bool → Bool
bool_beq true b = b
bool_beq false true = false
bool_beq false false = true

unfoldable pub held_beq : Held → Held → Bool
unfolding kind_beq bool_beq
held_beq (packed_note m) (packed_note n) = kind_beq m.kind n.kind && bool_beq m.is_on n.is_on
held_beq (packed_word s) (packed_word t) = s == t
held_beq _ _ = false

kind_beq_sound : (j k : Kind) → kind_beq j k ≡ true → j ≡ k
unfolding kind_beq
kind_beq_sound trip trip h = refl
kind_beq_sound ping ping h = refl
kind_beq_sound trip ping h = cc
kind_beq_sound ping trip h = cc

bool_beq_sound : (a b : Bool) → bool_beq a b ≡ true → a ≡ b
unfolding bool_beq
bool_beq_sound true b h = sym h
bool_beq_sound false true h = cc
bool_beq_sound false false h = refl

held_beq_sound : (x y : Held) → held_beq x y ≡ true → x ≡ y
unfolding held_beq
held_beq_sound (packed_note m) (packed_note n) h =
    let (p, q) = both (kind_beq m.kind n.kind) (bool_beq m.is_on n.is_on) h in
    note_eq (kind_beq_sound m.kind n.kind p) (bool_beq_sound m.is_on n.is_on q)
  where
    note_eq : m.kind ≡ n.kind → m.is_on ≡ n.is_on → packed_note m ≡ packed_note n
    note_eq p q = ground arith
held_beq_sound (packed_word s) (packed_word t) h = ap packed_word ((==_iff s t).0 h)
held_beq_sound (packed_note m) (packed_word t) h = cc
held_beq_sound (packed_word s) (packed_note n) h = cc

-- The known container is told apart by all of its fields.
abbrev fields_of : Container Held → Value
fields_of c = dict (
    of_entries (
      (name "format_version", str c.format_version)
      ∷ (name "id", str c.id)
      ∷ (name "publisher", str c.publisher)
      ∷ (name "timestamp", int c.timestamp)
      ∷ (name "headers", dict (of_entries c.headers))
      ∷ (name "schema", str c.schema)
      ∷ []))

unfoldable pub container_beq : Container Held → Container Held → Bool
unfolding held_beq same
container_beq c d = same (fields_of c) (fields_of d) && held_beq c.data_ d.data_

entries_eq : (h g : Entries) → of_entries h ≡ of_entries g → h ≡ g
entries_eq h g e = sym (to_entries-of_entries h) ∙ ap to_entries e ∙ to_entries-of_entries g

container_beq_sound : (c d : Container Held) → container_beq c d ≡ true → c ≡ d
unfolding container_beq
container_beq_sound c d h =
    let (p, q) = both (same (fields_of c) (fields_of d)) (held_beq c.data_ d.data_) h in
    whole (same_sound (fields_of c) (fields_of d) p) (held_beq_sound c.data_ d.data_ q)
  where
    whole : fields_of c ≡ fields_of d → c.data_ ≡ d.data_ → c ≡ d
    whole e f =
        let headers : c.headers ≡ d.headers = entries_eq c.headers d.headers cc in
        ground (arith, e, f, headers)

-- The classes are known up to minor version 3.
abbrev pub options_of : Kind → Options
options_of trip = record {
  is_defined = true;
  message_type = "";
  major_version = 1;
  minor_version = 3;
}
options_of ping = record {
  is_defined = true;
  message_type = "ping";
  major_version = 2;
  minor_version = 0;
}

abbrev pub name_of : Kind → String
name_of trip = "tripV1"
name_of ping = "Heartbeat"

-- A message is one byte, or a word.
abbrev pub note_byte : Bool → ℕ
note_byte true = 1
note_byte false = 0

unfoldable pub parse_note : Kind → List ℕ → Option Note
parse_note k (b ∷ []) =
    if b == 0
    then some (record { kind = k; is_on = false })
    else if b == 1
    then some (record { kind = k; is_on = true })
    else none
parse_note k _ = none

abbrev pub note_word : Bool → String
note_word true = "on"
note_word false = "off"

unfoldable pub parse_word : Kind → String → Option Note
parse_word k s =
    if s == "off"
    then some (record { kind = k; is_on = false })
    else if s == "on"
    then some (record { kind = k; is_on = true })
    else none

abbrev unpack_held : Kind → Held → Option Note
unpack_held k (packed_note n) = some n
unpack_held k (packed_word s) = none

abbrev is_held : Held → Kind → Bool
is_held (packed_note n) k = kind_beq n.kind k
is_held (packed_word s) k = false

abbrev text_of : Held → Option (Option String)
text_of (packed_note n) = none
text_of (packed_word s) = some (some s)

module _ (known : Container Held) where
  abbrev pub proto_lib : Library Kind Note Held
  proto_lib = record {
    class_name = name_of;
    options = options_of;
    parse = parse_note;
    serialize = λ n. ok (note_byte n.is_on ∷ []);
    parse_container = λ bytes. if bytes_known bytes then some known else none;
    serialize_container = λ c. if container_beq c known then ok (7 ∷ []) else raise value_error;
    parse_json = parse_word;
    print_json = λ n. ok (note_word n.is_on);
    parse_json_container = λ s. if s == "known" then some known else none;
    print_json_container = λ c. if container_beq c known then ok "known" else raise value_error;
    pack = packed_note;
    pack_text = packed_word;
    is = is_held;
    unpack = unpack_held;
    value_text = text_of;
    show = λ v. "?";
  }
    where
      bytes_known : List ℕ → Bool
      bytes_known (b ∷ []) = b == 7
      bytes_known _ = false

  pub proto_lib-IsPrinting : IsPrinting proto_lib (λ n. n.kind)
  unfolding parse_note parse_word
  proto_lib-IsPrinting = record {
    parse-serialize = λ n bytes h. rw (← ok-inj h) (parsed n.kind n.is_on);
    parse_json-print_json = λ n s h. rw (← ok-inj h) (read n.kind n.is_on);
  }
    where
      parsed :
          (k : Kind) (b : Bool)
          → parse_note k (note_byte b ∷ []) ≡ some (record { kind = k; is_on = b })
      parsed k true = refl
      parsed k false = refl

      read :
          (k : Kind) (b : Bool) → parse_word k (note_word b) ≡ some (record { kind = k; is_on = b })
      read k true = refl
      read k false = refl

  -- Only the known container is written.
  written_known :
      {X : Type 0} (c : Container Held) (written out : X)
      → (if container_beq c known then ok written else raise value_error) ≡ ok out
      → (c ≡ known) × (written ≡ out)
  written_known c written out h = elim (Bool-cases (container_beq c known)) [
    | inl e ↦ (container_beq_sound c known e, ok-inj (rw e at h))
    | inr e ↦ absurd (refused (rw e at h))
  ]
    where
      refused : {Y : Type 0} {y : Y} → raise value_error ≢ ok y
      refused h = cc

  itself : (m : Entries) → IsDict m → IsArranged m m
  itself m once = record { once = once; same = λ k. refl }

  kind_same : (k : Kind) → kind_beq k k ≡ true
  unfolding kind_beq
  kind_same trip = refl
  kind_same ping = refl

  pub proto_lib-IsBoxing : IsBoxing proto_lib (binary_coding proto_lib) (λ n. n.kind)
  unfolding binary_coding
  proto_lib-IsBoxing = record {
    decode-encode_container = λ c payload once h.
        let (bytes, e, same) = >>=-eq-ok (proto_lib.serialize_container c) _ h in
        let (is_known, put) = written_known c (7 ∷ []) bytes e in
        (c.headers, itself c.headers once, rw (← ok-inj same) (rw (← put) (ap ok (sym is_known))));
    is-pack = λ n. kind_same n.kind;
    unpack-pack = λ n. refl;
  }

  pub proto_lib-IsLining : IsLining proto_lib (λ n. n.kind)
  proto_lib-IsLining = record {
    parse-print_json_container = λ c line once h.
        let (is_known, put) = written_known c "known" line h in
        (c.headers, itself c.headers once, rw (← put) (ap some (sym is_known)));
    is-pack = λ n. kind_same n.kind;
    unpack-pack = λ n. refl;
    value_text-pack = λ n. refl;
    value_text-pack_text = λ s. refl;
    serialize-bytes = λ n bytes h. rw (← ok-inj h) (small n.is_on);
  }
    where
      small : (b : Bool) → All IsByte (note_byte b ∷ [])
      small true = (omega arith, tt)
      small false = (omega arith, tt)
