-- ===== src/Http.antt =====
-- The management server of src/http_server.c: a request as microhttpd hands it over, the upload
-- that it collects, the check of the caller, and the handler that its method and path select.
pub mod Types
pub mod Upload
pub mod Database
pub mod Hash
pub mod Guard
pub mod Routes
pub mod Dispatch
pub mod Access
pub mod Gate
pub mod Endpoint
pub mod Serve
pub mod Run
pub mod Outcome
pub mod Samples
pub mod Tests
