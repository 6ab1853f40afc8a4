-- ===== src/Dbc.antt =====
-- internal/dbc: the decoding of signals from bus payloads.
pub mod Decode
pub mod Little
pub mod Big
pub mod Sign
