-- ===== src/Daemon.antt =====
-- main/smartmetd.cpp: the parts of the daemon around the server.
pub mod EventRate
pub mod NewHandler
pub mod Signals
pub mod SignalLoss
pub mod Watchdog
pub mod Startup
pub mod RateSpec
pub mod Masks
pub mod Process
pub mod Blocking
