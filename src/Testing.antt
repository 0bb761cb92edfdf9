-- ===== src/Testing.antt =====
-- hedwig/testing/pytest_plugin.py: the mock of the publisher and its assertions. Package mock keeps the
-- arguments of the calls, and calls the `publish` that it wraps; the texts of failures are left out.
pub mod Assertions
use hedwig_python.Prelude.{
  String, Bool, true, false, ◌&&◌, not, Option, none, some, List, [], ◌∷◌, ◌++◌, Eq, ◌==◌,
  string_eq, if◌then◌else◌,
}
use hedwig_python.Python.Action.{Action}
use hedwig_python.Python.Exn.{
  Result, ok, raise, guard, from_option, value_error, attribute_error, assertion_error, ◌>>=◌,
}
use hedwig_python.Version.{StrictVersion, parse, version_beq}
use hedwig_python.Models.{Message, MsgType, type_name}
use hedwig_python.Publisher.{Publishing, publish}

-- A version, or the text of one.
pub data VersionLike : Type 0 where
  text_version : String → VersionLike
  strict : StrictVersion → VersionLike

-- StrictVersion(version) of a text; an empty one makes an object without a version.
unfoldable pub strict_version_of : VersionLike → Result (Option StrictVersion)
strict_version_of (strict version) = ok (some version)
strict_version_of (text_version s) =
    if s == "" then ok none else from_option value_error (parse s) >>= λ version. ok (some version)

-- msg.version == version
abbrev pub same_version : StrictVersion → Option StrictVersion → Result Bool
same_version version none = raise attribute_error
same_version version (some other) = ok (version_beq version other)

abbrev pub or_rest : Result Bool → Bool → Result Bool
or_rest rest true = ok true
or_rest rest false = rest

module _ {D P : Type 0} ⦃e : Eq D⦄ where
  -- data is None or msg.data == data
  abbrev pub has_data : Option D → Message D P → Bool
  has_data none msg = true
  has_data (some data_) msg = msg.content == data_

  unfoldable pub is_call : String → Option D → Option StrictVersion → Message D P → Result Bool
  is_call msg_type data_ version msg =
      if msg.type == msg_type && has_data data_ msg
      then same_version msg.version version
      else ok false

  -- `any` over the messages of the calls
  unfoldable pub message_published :
      String → Option D → Option StrictVersion → List (Message D P) → Result Bool
  unfolding is_call
  message_published msg_type data_ version [] = ok false
  message_published msg_type data_ version (msg ∷ msgs) =
      is_call msg_type data_ version msg >>= or_rest (message_published msg_type data_ version msgs)

  unfoldable pub assert_message_published :
      MsgType → Option D → VersionLike → List (Message D P) → Result (Unit {0})
  unfolding strict_version_of message_published type_name
  assert_message_published msg_type data_ version msgs = do
    wanted ← strict_version_of version
    published ← message_published (type_name msg_type) data_ wanted msgs
    guard published assertion_error

  unfoldable pub assert_message_not_published :
      MsgType → Option D → VersionLike → List (Message D P) → Result (Unit {0})
  unfolding strict_version_of message_published type_name
  assert_message_not_published msg_type data_ version msgs = do
    wanted ← strict_version_of version
    published ← message_published (type_name msg_type) data_ wanted msgs
    guard (not published) assertion_error

-- The mocked `publish`, on the messages of the calls and the state of the application.
unfoldable pub mock_publish :
    {D P S : Type 0} → Publishing D P S → Message D P → Action (List (Message D P) × S) String
mock_publish p message (calls, s) =
    let r = publish p message s in (r.0, (calls ++ message ∷ [], r.1))
