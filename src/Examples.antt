-- ===== src/Examples.antt =====
-- Test data and evaluations: each theorem of the development at a concrete input.
mod Clock
mod Jobs
mod Data
mod Authz
mod Tokens
mod OAuth
mod Endpoints
mod Web
mod Resources
mod Schedule
mod Events
mod Recovery
mod Messages
