-- ===== src/Otb.antt =====
-- The .otb file: its layout (libs/common/common.h), and those who write and read it.
pub mod Bytes
pub mod Format
pub mod RoundTrip
pub mod Search
pub mod Store
