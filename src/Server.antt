-- ===== src/Server.antt =====
-- internal/server/grpc_server.go: the handlers as functions from the state of the server to the next.
-- The feeds that the process has made are a store: a feed is known by its address there. The scan's
-- goroutine is only its `Control` here, with the drift and tick that it last reported.
pub mod Requests
pub mod Handlers
pub mod Registering
pub mod Feeds
pub mod Scans
pub mod Refusals
pub mod Starting
