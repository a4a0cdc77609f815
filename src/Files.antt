-- ===== src/Files.antt =====
-- The file manager, web/src/files.js.
pub mod FilePath
pub mod Kind
pub mod Sort
pub mod View
pub mod Selection
pub mod Actions
pub mod Tree
pub mod Listing
pub mod Session
pub mod Keys
pub mod Preview
pub mod Menu
