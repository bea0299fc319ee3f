-- ===== src/Tokens.antt =====
-- app/core/auth.py: bearer tokens and password hashes, and app/api/deps.py and
-- app/api/routes/auth.py on top of them.
pub mod Base64
pub mod RoundTrip
pub mod Jwt
pub mod Signed
pub mod Password
pub mod Login
pub mod Sessions
