-- ===== src/Model.antt =====
-- internal/model and internal/normalize
pub mod Address
pub mod Body
