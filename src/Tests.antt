-- ===== src/Tests.antt =====
-- The theorems at concrete inputs, and tests of the definitions. SHA-256 and AES are stood in for
-- by small functions that have the stated properties.
mod Parameters
mod Names
mod Grants
mod Streams
mod Queries
mod Caches
mod Drains
mod Trees
mod Trashes
mod Restores
mod Reads
mod Owners
mod Mappings
mod Pulls
mod Resources
mod Rings
