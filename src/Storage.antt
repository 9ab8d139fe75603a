-- ===== src/Storage.antt =====
-- sdk/typescript/src/modules/storage.ts: requests to a storage node, single chunks, and files in
-- chunks under a manifest.
pub mod Requests
pub mod Chunks
pub mod Contract
pub mod Transfer
pub mod Files
pub mod Manifest
pub mod Upload
pub mod Calls
pub mod Download
pub mod RoundTrip
pub mod Lost
pub mod Tests
