-- ===== src/Controller.antt =====
-- internal/controller: the reconcilers of the custom resources.
pub mod Runtime
pub mod Status
pub mod Kinds
pub mod Settled
pub mod Converge
pub mod Generations
pub mod Names
