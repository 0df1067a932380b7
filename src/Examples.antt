-- ===== src/Examples.antt =====
-- Concrete requests, stores and services: what the theorems say of them, one instance for each theorem
-- that has conditions.
mod Access
mod Stores
mod Tokens
mod Callers
mod Sealing
mod Gate
mod Server
mod Wrapping
mod Loading
