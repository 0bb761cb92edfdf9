-- ===== src/Testing/Assertions.antt =====
-- The assertions of hedwig/testing/pytest_plugin.py.
use hedwig_python.Prelude.{
  String, ◌≡◌, refl, ap, ◌⊎◌, inl, inr, true, false, ◌&&◌, Bool-cases, Option, some, List, [], ◌∷◌,
  ◌++◌, arith, Eq, ◌==◌, ==_iff, ==_refl, string_eq,
}
use hedwig_python.Python.Exn.{ok, raise, assertion_error}
use hedwig_python.Version.{StrictVersion, version_beq, version_beq_refl}
use hedwig_python.Models.{Message, MsgType, text, type_name}
use hedwig_python.Publisher.{Publishing}
use hedwig_python.Testing.{
  VersionLike, strict, strict_version_of, has_data, is_call, message_published,
  assert_message_published, assert_message_not_published, mock_publish,
}

module _ {D P : Type 0} ⦃e : Eq D⦄ where
  -- A message of this type and version, and with these data, if any are given.
  abbrev pub IsCall : String → Option D → StrictVersion → Message D P → Type 0
  IsCall msg_type data_ version msg =
      (msg.type ≡ msg_type) × (has_data data_ msg ≡ true) × (version_beq msg.version version ≡ true)

  -- One of the calls was with such a message.
  abbrev pub IsPublished : String → Option D → StrictVersion → List (Message D P) → Type 0
  IsPublished msg_type data_ version [] = false ≡ true
  IsPublished msg_type data_ version (msg ∷ msgs) =
      IsCall msg_type data_ version msg ⊎ IsPublished msg_type data_ version msgs

  is_call-cases :
      (msg_type : String) (data_ : Option D) (version : StrictVersion) (msg : Message D P)
      → ((is_call msg_type data_ (some version) msg ≡ ok true) × IsCall msg_type data_ version msg)
        ⊎ ((is_call msg_type data_ (some version) msg ≡ ok false)
            × ¬ IsCall msg_type data_ version msg)
  unfolding is_call
  is_call-cases msg_type data_ version msg =
      elim (Bool-cases (msg.type == msg_type && has_data data_ msg)) [
        | inl both ↦ elim (Bool-cases (version_beq msg.version version)) [
          | inl same ↦
              inl (
                rw both (ap ok same),
                (ground (arith, ==_iff msg.type msg_type), ground arith, same),
              )
          | inr differs ↦ inr (rw both (ap ok differs), λ c. let v = c.2 in cc)
        ]
        | inr other ↦ inr (rw other refl, λ (t, d, v). ground (arith, ==_iff msg.type msg_type))
      ]

  message_published-cases :
      (msg_type : String) (data_ : Option D) (version : StrictVersion) (msgs : List (Message D P))
      → ((message_published msg_type data_ (some version) msgs ≡ ok true)
          × IsPublished msg_type data_ version msgs)
        ⊎ ((message_published msg_type data_ (some version) msgs ≡ ok false)
            × ¬ IsPublished msg_type data_ version msgs)
  unfolding message_published
  message_published-cases msg_type data_ version [] = inr (refl, λ h. cc)
  message_published-cases msg_type data_ version (msg ∷ msgs) =
      elim (is_call-cases msg_type data_ version msg) [
        | inl (here, call) ↦ inl (rw here refl, inl call)
        | inr (elsewhere, no_call) ↦ elim (message_published-cases msg_type data_ version msgs) [
          | inl (found, published) ↦ inl (rw elsewhere found, inr published)
          | inr (missed, unpublished) ↦ inr (rw elsewhere missed, both_not no_call unpublished)
        ]
      ]
    where
      both_not : {A B : Type 0} → ¬ A → ¬ B → ¬ (A ⊎ B)
      both_not a b (inl x) = a x
      both_not a b (inr y) = b y

  is_last :
      (msgs : List (Message D P)) (msg : Message D P)
      → IsPublished msg.type (some msg.content) msg.version (msgs ++ msg ∷ [])
  is_last [] msg = inl (refl, ==_refl msg.content, version_beq_refl msg.version)
  is_last (first ∷ msgs) msg = inr (is_last msgs msg)

  -- With a version that is one: `assert_message_published` returns exactly if one of the calls was with
  -- a message of the type, the version and the data, if any are given, and
  -- `assert_message_not_published` exactly if none was; otherwise they raise AssertionError. After a
  -- call of the mocked `publish`, whatever it returned or raised, the first returns for its message.
  pub assert_message_published_exact :
      {S : Type 0} (msg_type : MsgType) (data_ : Option D) (like : VersionLike)
      (version : StrictVersion) (msgs : List (Message D P)) (p : Publishing D P S)
      (msg : Message D P) (s : S)
      → strict_version_of like ≡ ok (some version)
      → (((assert_message_published msg_type data_ like msgs ≡ ok tt)
            × (assert_message_not_published msg_type data_ like msgs ≡ raise assertion_error)
            × IsPublished (type_name msg_type) data_ version msgs)
          ⊎ ((assert_message_published msg_type data_ like msgs ≡ raise assertion_error)
              × (assert_message_not_published msg_type data_ like msgs ≡ ok tt)
              × (¬ IsPublished (type_name msg_type) data_ version msgs)))
        × (assert_message_published
              (text msg.type)
              (some msg.content)
              (strict msg.version)
              (mock_publish p msg (msgs, s)).1.0
            ≡ ok tt)
  unfolding assert_message_published assert_message_not_published mock_publish strict_version_of
      type_name
  assert_message_published_exact msg_type data_ like version msgs p msg s is_version = (
    elim (message_published-cases (type_name msg_type) data_ version msgs) [
      | inl (found, published) ↦
          inl (rw is_version (rw found refl), rw is_version (rw found refl), published)
      | inr (missed, unpublished) ↦
          inr (rw is_version (rw missed refl), rw is_version (rw missed refl), unpublished)
    ],
    elim (message_published-cases msg.type (some msg.content) msg.version (msgs ++ msg ∷ [])) [
      | inl (found, published) ↦ rw found refl
      | inr (missed, unpublished) ↦ absurd (unpublished (is_last msgs msg))
    ],
  )
