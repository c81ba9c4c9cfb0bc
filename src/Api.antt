-- ===== src/Api.antt =====
-- components/api/api.h and api.cpp: the requests and responses of the protocol, read from a parsed
-- document and written by RapidJSON's writer.
pub mod Values
pub mod Codes
pub mod Requests
pub mod Responses
pub mod Rendered
pub mod RequestTrip
pub mod ResponseTrip
pub mod ConnectTrip
