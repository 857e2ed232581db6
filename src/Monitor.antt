-- ===== src/Monitor.antt =====
-- browser-trace/main.py in `cdp` mode: CDP events and replies become log events, and drive the
-- traffic accounts, the connection and the recorder.
pub mod State
pub mod Emit
pub mod Navigation
pub mod Captcha
pub mod Reports
pub mod Arms
pub mod Events
pub mod Steps
pub mod Accounts
pub mod Reported
pub mod Detach
pub mod Probes
pub mod FrameOrder
mod Tests
