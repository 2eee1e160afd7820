-- ===== src/Yfs.antt =====
-- The file system client, yfs_client.cc.
pub mod Directory
pub mod Operations
