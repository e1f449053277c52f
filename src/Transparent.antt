-- ===== src/Transparent.antt =====
-- The transparent HTTPS proxy, proxy/transparent: what it reads from a client, which service a host
-- belongs to, and what it puts into a request.
pub mod Connect
pub mod Mitm
pub mod Service
pub mod Inject
pub mod Placeholder
pub mod Registry
pub mod Errors
pub mod Tunnel
pub mod Connection
