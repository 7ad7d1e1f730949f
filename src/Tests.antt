-- ===== src/Tests.antt =====
-- The theorems at concrete inputs, and runs of the definitions.
mod Cluster
mod LateReply
mod Heartbeat
mod Auth
mod Nginx
mod Certificate
mod Keys
mod Tokens
mod Credentials
mod Reloader
