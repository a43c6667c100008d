-- ===== src/Tests.antt =====
-- Concrete instances of the crates, and the examples of the theorems at them.
pub mod Codec
pub mod Kernel
pub mod Wire
pub mod Serving
pub mod Rendering
pub mod Plots
pub mod Series
pub mod Colors
pub mod Statics
pub mod Control
pub mod Tasks
pub mod Startup
pub mod Engine
pub mod Arguments
pub mod Launch
pub mod Reports
pub mod Registration
pub mod Ranges
pub mod Images
