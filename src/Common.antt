-- ===== src/Common.antt =====
-- common/: the helpers that start other programs for the modules.
pub mod Terminal
pub mod Guide
