-- ===== src/AgentServer.antt =====
-- internal/api/grpc/server.go: the hub's side of the agents' gRPC service. Logging and metrics are
-- left out, and so are the streams of logs and metrics, which only log what they receive.
pub mod State
mod Decimal
pub mod Handlers
pub mod Streams
pub mod Results
pub mod Registration
