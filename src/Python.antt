-- ===== src/Python.antt =====
-- What the models of all components share of Python: exceptions, dynamic values, dictionaries.
pub mod Exn
pub mod Value
pub mod Dict
pub mod Plain
pub mod Action
pub mod LruCache
