-- ===== src/HttpClient.antt =====
-- utils/http/client/: options, a requester over resty, and the client.
pub mod Options
pub mod Requester
pub mod Client
