-- ===== src/Upload.antt =====
-- handlers/chunkedupload/handler.go and chunked.go: forms that are uploaded in several parts.
pub mod Sets
pub mod SetLaws
pub mod Form
pub mod Parts
pub mod Parse
pub mod Files
pub mod Serve
pub mod Chunked
pub mod Disk
pub mod Initializer
pub mod Accepted
pub mod Served
pub mod Single
pub mod Values
pub mod Limit
pub mod Setup
pub mod Rollback
pub mod Examples
