-- ===== src/Auth.antt =====
-- The auth service (auth/src): token stores, HTTP handlers and providers.
pub mod HandoffStore
pub mod StateStore
pub mod RefreshStore
pub mod Http
pub mod Token
pub mod Provider
pub mod Session
pub mod OauthToken
pub mod Server
mod Tests
