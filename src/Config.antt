-- ===== src/Config.antt =====
-- base/src/core/config.py: `Config`, built from environment variables and from what DHCP offers say.
pub mod Option43
pub mod Frames
pub mod Packets
pub mod Offers
pub mod Reload
pub mod Collector
