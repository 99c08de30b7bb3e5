-- ===== src/Auth.antt =====
-- Authentication: the permissions of a user (user/access_rights.py), the principals
-- (authentication/principal.py), the access tokens (authentication/tokens.py), the refresh tokens
-- (authentication/models/refresh_token.py) and the service over them (authentication/services.py).
pub mod Scopes
pub mod AccessTokens
pub mod RefreshTokens
pub mod Sessions
pub mod ApiKeys
mod Tests
