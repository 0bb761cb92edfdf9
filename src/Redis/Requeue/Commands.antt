-- ===== src/Redis/Requeue/Commands.antt =====
-- What the pipeline of `_requeue_messages` in hedwig/backends/redis.py adds and acknowledges.
use hedwig_python.Prelude.{
  ◌≡◌, ◌≢◌, refl, ◌∙◌, ap, String, List, [], ◌∷◌, ◌++◌, ◌==◌, ==_refl, ==_iff, string_eq,
  if◌then◌else◌, Bool-cases, inl, inr,
}
use mathlib.Core.List.{append-nil}
use hedwig_python.Redis.{Bytes, utf8, not_utf8, StreamFields}
use hedwig_python.Redis.Pull.{Entry, Command, xadd_command, xack_command}
use hedwig_python.Redis.Requeue.{ids, xadd_all, requeue_commands}

abbrev pub fields_of : List Entry → List StreamFields
fields_of [] = []
fields_of ((id, fields) ∷ messages) = fields ∷ fields_of messages

pub fields_of-append : (xs ys : List Entry) → fields_of (xs ++ ys) ≡ fields_of xs ++ fields_of ys
fields_of-append [] ys = refl
fields_of-append (x ∷ xs) ys = ap (λ m. x.1 ∷ m) (fields_of-append xs ys)

-- What the commands of a pipeline add to a stream, and which ids they acknowledge in one.
unfoldable pub added_to : String → List Command → List StreamFields
added_to stream [] = []
added_to stream (xadd_command name fields ∷ commands) =
    if name == stream then fields ∷ added_to stream commands else added_to stream commands
added_to stream (xack_command name acks ∷ commands) = added_to stream commands

unfoldable pub acked : String → List Command → List Bytes
acked stream [] = []
acked stream (xadd_command name fields ∷ commands) = acked stream commands
acked stream (xack_command (utf8 name) acks ∷ commands) =
    if name == stream then acks ++ acked stream commands else acked stream commands
acked stream (xack_command (not_utf8 bytes) acks ∷ commands) = acked stream commands

added_to-xadd_all :
    (main_stream : String) (messages : List Entry) (last : List Command)
    → added_to main_stream last ≡ []
    → added_to main_stream (xadd_all main_stream messages last) ≡ fields_of messages
unfolding xadd_all added_to
added_to-xadd_all main_stream [] last none_last = none_last
added_to-xadd_all main_stream ((id, fields) ∷ messages) last none_last =
    rw (==_refl main_stream)
      (ap (λ m. fields ∷ m) (added_to-xadd_all main_stream messages last none_last))

pub added_to-requeue :
    (main_stream deadletter_stream : String) (messages : List Entry)
    → added_to main_stream (requeue_commands main_stream deadletter_stream messages)
      ≡ fields_of messages
unfolding requeue_commands added_to
added_to-requeue main_stream deadletter_stream messages =
    added_to-xadd_all main_stream messages _ refl

added_to-others :
    (main_stream stream : String) (messages : List Entry) (last : List Command)
    → main_stream ≢ stream
    → added_to stream (xadd_all main_stream messages last) ≡ added_to stream last
unfolding xadd_all added_to
added_to-others main_stream stream [] last apart = refl
added_to-others main_stream stream ((id, fields) ∷ messages) last apart =
    elim (Bool-cases (main_stream == stream)) [
      | inl e ↦ absurd (apart ((==_iff main_stream stream).0 e))
      | inr e ↦ rw e (added_to-others main_stream stream messages last apart)
    ]

pub added_to-deadletters :
    (main_stream deadletter_stream : String) (messages : List Entry)
    → main_stream ≢ deadletter_stream
    → added_to deadletter_stream (requeue_commands main_stream deadletter_stream messages) ≡ []
unfolding requeue_commands added_to
added_to-deadletters main_stream deadletter_stream messages apart =
    added_to-others main_stream deadletter_stream messages _ apart

acked-requeue :
    (main_stream deadletter_stream : String) (messages : List Entry) (last : List Command)
    → acked deadletter_stream (xadd_all main_stream messages last) ≡ acked deadletter_stream last
unfolding xadd_all acked
acked-requeue main_stream deadletter_stream [] last = refl
acked-requeue main_stream deadletter_stream ((id, fields) ∷ messages) last =
    acked-requeue main_stream deadletter_stream messages last

pub acked-ids :
    (main_stream deadletter_stream : String) (messages : List Entry)
    → acked deadletter_stream (requeue_commands main_stream deadletter_stream messages)
      ≡ ids messages
unfolding requeue_commands acked
acked-ids main_stream deadletter_stream messages =
    acked-requeue main_stream deadletter_stream messages _
    ∙ rw (==_refl deadletter_stream) (append-nil (ids messages))
