-- ===== src/Privet.antt =====
-- The local API: `privet/`.
pub mod Xsrf
