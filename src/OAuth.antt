-- ===== src/OAuth.antt =====
-- The pending authorizations of X (backend/internal/knowledge/x_oauth.go): `States` holds the
-- operations on `xOAuthStates`, `SingleUse` the sequences of them and that a state is used
-- once, and `Histories` which authorization a callback gets.
pub mod States
pub mod SingleUse
pub mod Histories
