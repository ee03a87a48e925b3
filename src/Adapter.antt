-- ===== src/Adapter.antt =====
-- The adapters that let requests through to a handler, or refuse them, by the engine's decision:
-- internal/adapter/http/middleware.go and internal/adapter/grpc.
pub mod Middleware
pub mod Grpc
pub mod Agreement
