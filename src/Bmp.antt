-- ===== src/Bmp.antt =====
-- outlet/routing/provider/bmp: the routing provider that is fed by BMP.
pub mod Decimal
pub mod Rd
