-- ===== src/Redis/Requeue.antt =====
-- `requeue_dead_letter` and `_requeue_messages` of hedwig/backends/redis.py. What is printed is left
-- out, but for the total.
pub mod Commands
pub mod Drained
use hedwig_python.Prelude.{
  ℕ, zero, suc, ◌+◌, String, Option, none, some, List, [], ◌∷◌, ◌++◌, length,
}
use hedwig_python.Python.Action.{Action, pure, and_then, ◌>>=◌, ◌>>◌}
use hedwig_python.Python.Exn.{Result}
use hedwig_python.Redis.{Bytes, utf8, StreamFields}
use hedwig_python.Redis.Pull.{Entry, Command, xadd_command, xack_command, Client}

abbrev pub ids : List Entry → List Bytes
ids [] = []
ids ((id, fields) ∷ messages) = id ∷ ids messages

-- What the loop over the messages puts into the pipeline, then `last`.
unfoldable pub xadd_all : String → List Entry → List Command → List Command
xadd_all main_stream [] last = last
xadd_all main_stream ((id, fields) ∷ messages) last =
    xadd_command main_stream fields ∷ xadd_all main_stream messages last

unfoldable pub requeue_commands : String → String → List Entry → List Command
unfolding xadd_all
requeue_commands main_stream deadletter_stream messages =
    xadd_all main_stream messages (xack_command (utf8 deadletter_stream) (ids messages) ∷ [])

-- The lists of all streams, one behind the other.
unfoldable pub flatten : List (List Entry) → List Entry
flatten [] = []
flatten (messages ∷ rest) = messages ++ flatten rest

unfoldable pub flatten_streams : List (Bytes × List (List Entry)) → List Entry
unfolding flatten
flatten_streams [] = []
flatten_streams ((stream, entries) ∷ rest) = flatten entries ++ flatten_streams rest

module _ {S : Type 0} (client : Client S) (main_stream deadletter_stream : String) where
  -- `_requeue_messages`
  unfoldable pub requeue_messages : List Entry → Action S (Unit {0})
  unfolding requeue_commands
  requeue_messages messages =
      client.execute (requeue_commands main_stream deadletter_stream messages)

  -- One of the two `while` loops: `fetch` gives the next messages, and without any the loop ends.
  -- `none` is returned when the fuel, one for each round, is used up.
  unfoldable pub requeue_loop : Action S (List Entry) → ℕ → ℕ → Action S (Option ℕ)
  unfolding requeue_messages
  requeue_loop fetch zero total_count = pure none
  requeue_loop fetch (suc fuel) total_count = fetch >>= λ messages. elim messages [
    | [] ↦ pure (some total_count)
    | m ∷ ms ↦ requeue_messages (m ∷ ms) >> requeue_loop fetch fuel (total_count + length (m ∷ ms))
  ]

  -- What `xreadgroup` finds in the dead letter stream.
  unfoldable pub read_new : ℕ → Action S (List Entry)
  unfolding flatten_streams
  read_new num_messages = do
    entries ← client.xreadgroup (deadletter_stream ∷ []) num_messages
    pure (flatten_streams entries)

  -- The total of both loops. The fuel is that of each loop.
  unfoldable pub requeue_dead_letter : ℕ → ℕ → Action S (Option ℕ)
  unfolding requeue_loop read_new
  requeue_dead_letter fuel num_messages =
      requeue_loop (client.xautoclaim deadletter_stream 0 num_messages) fuel 0 >>= λ claimed.
      elim claimed [
        | none ↦ pure none
        | some total_count ↦ requeue_loop (read_new num_messages) fuel total_count
      ]
