-- ===== src/MountHelper.antt =====
-- The privileged mount helper, bin/mount_helper.rs. A text is a list of code points here, since
-- the helper's own JSON parser makes a character of each byte; `byte_len` is `str::len`, and a test
-- of all bytes against an ASCII set is the test of all code points.
pub mod Validate
pub mod Json
pub mod Request
pub mod Fstab
pub mod Effects
mod Examples
