-- ===== src/App.antt =====
-- src/Presentation/App: the mobile app.
pub mod Analytics
pub mod Api
pub mod Auth
pub mod Biometrics
pub mod Cart
pub mod Connections
pub mod Database
pub mod Middleware
pub mod Network
pub mod Register
pub mod Screen
pub mod Signals
pub mod Storage
pub mod Sync
