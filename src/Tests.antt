-- ===== src/Tests.antt =====
-- Runs of the models and of their theorems at concrete inputs.
mod Types
mod Locations
mod Dropbox
mod Box
mod Credentials
mod Manager
mod Local
mod Listing
mod Cloud
mod Services
mod Adapters
