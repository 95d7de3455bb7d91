-- ===== src/Api.antt =====
-- The handlers of src/api: what each makes of the body of a request, and what it does to the
-- database and to the maps of the packet filter.
pub mod Json
pub mod Maps
pub mod Auth
pub mod Rules
pub mod Countries
pub mod Settings
pub mod Keys
pub mod Samples
pub mod Tests
