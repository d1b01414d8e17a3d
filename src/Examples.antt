-- ===== src/Examples.antt =====
-- Concrete upstreams, responses and requests, at which the theorems of the library are applied.
pub mod OpenApi
pub mod Plugins
pub mod Middlewares
pub mod Auth
pub mod Config
pub mod Streaming
pub mod Breakers
pub mod Upstreams
pub mod Responses
pub mod Requests
pub mod Gateway
