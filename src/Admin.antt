-- ===== src/Admin.antt =====
-- The admin panel, src/Presentation/Admin.
pub mod Api
pub mod CachedValues
pub mod Carts
pub mod Cookies
pub mod Facets
pub mod Http
pub mod Pages
pub mod Products
pub mod Providers
pub mod Session
pub mod Table
pub mod Toolbar
pub mod Users
