-- ===== src/Examples.antt =====
-- Runs of the theorems at concrete keys, values and stores.
mod Platform
mod Keys
mod Values
mod Stores
mod Services
mod Remotes
mod Listings
