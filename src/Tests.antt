-- ===== src/Tests.antt =====
-- Runs of the models on concrete inputs.
mod Data
mod Interning
mod Flows
mod Enrichment
mod Scaling
mod Caching
mod Limiting
mod Decoding
mod Working
mod Distinguishers
