-- ===== src/Web/OAuth.antt =====
-- klauthed-web/src/oauth: the endpoints of the OAuth 2.0 server, over the stores of
-- klauthed-security.
pub mod Messages
pub mod Url
pub mod Config
pub mod Flow
pub mod Token
pub mod Server
pub mod Manage
pub mod Memory
pub mod Authorize
pub mod Client
