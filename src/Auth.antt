-- ===== src/Auth.antt =====
-- static/jwtauth.js: the token for the manager's protected URLs.
pub mod Cookies
pub mod Token
pub mod Ajax
pub mod Authorised
