-- ===== src/Storage.antt =====
-- Storage words and readers of src/main.rs and src/balancer_storage.rs.
pub mod Words
pub mod State
pub mod Texts
pub mod Curve
pub mod Balancer
pub mod Vault
pub mod Bitmap
pub mod Ekubo
pub mod Positions
pub mod Bits
pub mod Initialised
