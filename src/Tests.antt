-- ===== src/Tests.antt =====
-- Runs of the model on concrete inputs, and the theorems at inputs that meet their conditions.
pub mod Dimensions
pub mod Unifications
pub mod Widths
pub mod Layouts
pub mod Spans
pub mod Matches
pub mod Channels
pub mod Joins
pub mod Lexes
pub mod Resolutions
