-- ===== src/Web.antt =====
-- src/Presentation/Web: the customers' web shop.
pub mod Auth
pub mod Basket
pub mod Cart
pub mod Catalog
pub mod NewProduct
pub mod Preferences
pub mod Products
pub mod Session
pub mod SignalR
pub mod Ui
