-- ===== src/Fault.antt =====
-- base/src/fault_management: the alarms (alarm.py) and the feature that keeps, replays and reports
-- them (fault_management.py). Every alarm object of the feature is held by its dictionary, so a
-- method of an alarm is an action on the entry of its key.
pub mod Alarm
pub mod Manager
pub mod Receive
pub mod Control
pub mod Task
pub mod Rules
pub mod Kept
pub mod Threads
pub mod Counters
pub mod Schedule
pub mod Change
pub mod Replay
pub mod Rest
