-- ===== src/Config/Roundtrip.antt =====
-- A diff, applied to the data that it was taken from, gives the data that it leads to: `diff_impl`
-- and `apply_diff` of config.cpp together.
pub mod Sets
pub mod Entries
pub mod Values
pub mod Dicts
pub mod Same
