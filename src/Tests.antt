-- ===== src/Tests.antt =====
-- The code at small inputs, and clients in the states that the theorems speak of.
pub mod Setting
pub mod Wire
pub mod Tools
pub mod Trees
pub mod Runs
pub mod Steps
pub mod Messages
pub mod Serving
