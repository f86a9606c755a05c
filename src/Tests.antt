-- ===== src/Tests.antt =====
-- Concrete inputs for drs-verify, and runs of the theorems on them.
mod Fixture
mod Policies
mod Chains
mod Stores
mod Requests
mod Restarts
mod Resolvers
mod Services
mod Timestamps
mod Replicas
mod Starts
mod Flights
mod Refreshes
