-- ===== src/Tests.antt =====
-- Runs of the definitions, and the theorems at concrete data, one module for each part of the program.
pub mod DictFactoryTests
pub mod ConfigTests
pub mod FaultTests
pub mod VesTests
pub mod ServerTests
pub mod OduTests
pub mod OruTests
pub mod NetconfTests
pub mod CryptoTests
pub mod SleepTests
pub mod PerformanceTests
pub mod HardwareTests
pub mod ExpirationTests
pub mod RestTests
pub mod CoreTests
