-- ===== src/Tests.antt =====
-- The theorems at concrete inputs, and runs of the definitions.
mod Entries
mod Mocks
mod Formats
mod Traces
mod Topics
mod Lambdas
mod Configured
mod Toy
mod Codecs
mod Consumers
mod Publishers
mod Streams
mod Stored
mod Queues
mod Schemas
mod Pubsub
mod Environments
mod Deadletters
mod Protos
mod Protobufs
