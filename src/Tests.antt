-- ===== src/Tests.antt =====
-- Concrete inputs at which the theorems apply.
mod World
mod Hellos
mod Letters
mod Rows
mod Stores
mod Endpoints
mod Pings
mod Broadcasts
mod Sessions
mod Streams
mod Registry
