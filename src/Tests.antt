-- ===== src/Tests.antt =====
-- Runs at concrete inputs, and each theorem at an input that meets its hypotheses.
mod Server
mod Deliveries
mod Handler
mod Limits
mod Mapping
mod Api
mod Cli
mod Start
mod Prober
mod Testhelper
mod Probe
mod Service
mod Commands
mod Policy
mod Nested
mod Probed
mod Serving
mod Validated
