-- ===== src/Tests.antt =====
-- Concrete runs of the models, and inputs at which the hypotheses of the theorems hold.
mod Writes
mod Values
mod Ids
mod Events
mod Fleet
mod Cluster
mod Controllers
mod Printing
mod Signals
mod Requests
mod Corpus
mod Routes
