-- ===== src/Oidc.antt =====
-- The OpenID provider (src/oidc): its records, its in-memory stores and its token endpoint.
pub mod Types
pub mod Provider
pub mod Claims
pub mod Codes
pub mod Refresh
pub mod Stores
pub mod Tokens
pub mod Ledger
pub mod Device
pub mod Backchannel
pub mod ClientAuth
pub mod Grants
mod Tests
