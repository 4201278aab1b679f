-- ===== src/Tests.antt =====
-- Runs of each component at concrete data, as its main theorems see them.
mod Agents
mod Arena
mod Decision
mod Delivery
mod Execution
mod Harness
mod LiveHire
mod Market
mod Plugins
mod Services
mod Worker
mod Workspace
