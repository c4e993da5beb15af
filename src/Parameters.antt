-- ===== src/Parameters.antt =====
-- The builders of include/Control/Parameters.hpp.
pub mod ReadOnly
pub mod ReadWrite
pub mod Handles
