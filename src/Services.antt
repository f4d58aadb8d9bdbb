-- ===== src/Services.antt =====
-- ssh-gui/frontend/src: the small services that the components share.
pub mod Tunnels
pub mod Action
pub mod Theme
pub mod Uptime
mod Tests
