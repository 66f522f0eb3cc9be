-- ===== src/Config.antt =====
-- The configuration data model and its messages: config.hpp and config.cpp.
pub mod Result
pub mod Scalar
pub mod Dict
pub mod Bt
pub mod Prune
pub mod Diff
pub mod Apply
pub mod Roundtrip
pub mod Codec
pub mod Load
pub mod Message
pub mod Multipart
pub mod Store
pub mod Merge
pub mod Community
