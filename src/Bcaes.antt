-- ===== src/Bcaes.antt =====
-- bcaes_registry/: the registry of architectural objects. `Models` has the data, `Store` the operations
-- of the store, `Graph` the walk over the dependencies, `Validators` the checks, `Service` the access
-- control in front of the store, and `Convergence` the convergence records.
pub mod Models
pub mod Store
pub mod Graph
pub mod Validators
pub mod Service
pub mod Convergence
mod Tests
