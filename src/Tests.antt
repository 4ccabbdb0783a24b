-- ===== src/Tests.antt =====
-- The tests of the development: each definition run on small inputs, and the theorems applied to them.
mod Sample
mod Memory
mod Helping
mod Remote
mod RedisServer
mod Completing
mod Serving
mod Caching
mod Loading
mod Logging
mod Racing
mod Requests
mod Services
