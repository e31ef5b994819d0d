-- ===== src/Fluid.antt =====
-- src/fluid_decoder.rs: Fluid reserves from raw storage words. `None` of the source is the inner
-- `none`; the outer `none` is a panic.
pub mod Isqrt
pub mod Prices
pub mod Reserves
pub mod Decode
pub mod Outcomes
