-- ===== src/Api/CrdSource.antt =====
-- internal/api/readmodel/crdsource: the read model over the custom resources.
pub mod Mapping
pub mod Matrix
pub mod Topology
pub mod Reads
pub mod Phases
pub mod Columns
pub mod Headers
pub mod Groups
pub mod Cells
pub mod Environments
pub mod Lookups
pub mod MatrixShape
