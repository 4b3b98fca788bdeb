-- ===== src/App.antt =====
-- The parts of the web application, app/src, that decide something.
pub mod CallAmount
pub mod Workspace
mod Tests
