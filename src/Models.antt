-- ===== src/Models.antt =====
-- metadata/models: the grantees and permissions of an object.
pub mod Flatten
pub mod Grantee
pub mod Permission
