-- ===== src/Debug.antt =====
-- The debug utilities: src/debug_utils.c and include/debug_utils.h, as a build with DEBUG_BUILD has
-- them; any other build compiles their bodies to nothing but StatusToString.
pub mod State
pub mod Print
pub mod Dump
pub mod Names
pub mod Columns
pub mod Macros
