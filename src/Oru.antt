-- ===== src/Oru.antt =====
-- o-ru-mplane/src/main.py: the extension of an O-RU. It takes the address of the controller into the
-- call-home settings, and asks OpenDaylight to accept the device.
pub mod Templates
pub mod Allow
pub mod Address
pub mod CallHome
pub mod Replaced
