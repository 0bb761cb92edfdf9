-- ===== src/Tests/Mocks.antt =====
-- The assertions on published messages, which have numbers as their data.
use hedwig_python.Prelude.{ℕ, String, ◌≡◌, refl, ◌⊎◌, true, none, some, List, [], ◌∷◌, nat_eq}
use hedwig_python.Prelude.Int.{pos}
use hedwig_python.Python.Exn.{ok, raise, type_error, assertion_error}
use hedwig_python.Python.Value.{int, str}
use hedwig_python.Version.{version, parse, version_beq}
use hedwig_python.Models.{Message, text, member, type_name}
use hedwig_python.Publisher.{Publishing}
use hedwig_python.Testing.{
  text_version, strict, strict_version_of, is_call, message_published, assert_message_published,
  assert_message_not_published, mock_publish,
}
use hedwig_python.Testing.Assertions.{IsPublished, assert_message_published_exact}

abbrev numbered_message : ℕ → Message ℕ String
numbered_message n = record {
  content = n;
  type = "trip";
  version = version 1 0;
  id = str "id-1";
  metadata = record {
    timestamp = int (pos 1);
    publisher = str "myapp";
    headers = [];
    provider_metadata = none;
  };
}

-- A dispatch that fails.
abbrev failing : Publishing ℕ String ℕ
failing = record {
  sync = true;
  default_headers = λ m. ok [];
  instrumented = true;
  inject = λ m. [];
  serialize = λ m. raise type_error;
  dispatch = λ m. raise type_error;
  uuid = "id-2";
  send = λ m payload attributes s. (ok "id-3", s);
}

abbrev published : List (Message ℕ String)
published = numbered_message 3 ∷ numbered_message 4 ∷ []

assertions_run :
    (assert_message_published (member "trip") (some 4) (text_version "1.0") published ≡ ok tt)
    × (assert_message_published (text "trip") none (text_version "1.0") published ≡ ok tt)
    × (assert_message_published (text "trip") (some 5) (text_version "1.0") published
        ≡ raise assertion_error)
    × (assert_message_not_published (text "trip") none (text_version "1.1") published ≡ ok tt)
unfolding assert_message_published assert_message_not_published strict_version_of message_published
    is_call parse version_beq type_name
assertions_run = (refl, refl, refl, refl)

one_zero : strict_version_of (text_version "1.0") ≡ ok (some (version 1 0))
unfolding strict_version_of parse
one_zero = refl

assert_message_published_exact_example :
    (((assert_message_published (member "trip") (some 5) (text_version "1.0") published ≡ ok tt)
        × (assert_message_not_published (member "trip") (some 5) (text_version "1.0") published
            ≡ raise assertion_error)
        × IsPublished (type_name (member "trip")) (some 5) (version 1 0) published)
      ⊎ ((assert_message_published (member "trip") (some 5) (text_version "1.0") published
            ≡ raise assertion_error)
          × (assert_message_not_published (member "trip") (some 5) (text_version "1.0") published
              ≡ ok tt)
          × (¬ IsPublished (type_name (member "trip")) (some 5) (version 1 0) published)))
    × (assert_message_published
          (text "trip")
          (some 5)
          (strict (version 1 0))
          (mock_publish failing (numbered_message 5) (published, 0)).1.0
        ≡ ok tt)
assert_message_published_exact_example =
    assert_message_published_exact (member "trip") (some 5) (text_version "1.0") (version 1 0)
      published failing (numbered_message 5) 0 one_zero
