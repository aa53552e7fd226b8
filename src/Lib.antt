-- ===== src/Lib.antt =====
-- The client side of the ShoppingProject shop: the mobile app, the web shop and the admin panel
-- under src/Presentation, in TypeScript.
--
-- The mobile app keeps a cart for the time without a network. LocalStorageRepository writes each
-- change of it to an SQLite table and to a queue, SyncManager sends the queue to the server later,
-- and the slices of a Redux store hold what the screens show. The web shop and the admin panel send
-- their requests through an HTTP client that renews the tokens, and keep their settings in
-- `localStorage` or in the address.
--
--   Prelude           lists, texts as conditions, sets kept as arrays, results of calls
--   Json, Storage     `JSON` as an interface; `localStorage` as pairs of keys and values
--   App.Database      App/src/infrastructure/persistence/SQLiteRepository.ts: the tables and the
--                     connection, and statements that may fail, as a monad
--   App.Storage       App/src/infrastructure/persistence/LocalStorageRepository.ts
--     .Queue, .Log    its changes by the statement that fails; the queue against the cart
--   App.Sync          App/src/infrastructure/services/SyncManager.ts
--     .Accepted, .Lock, .Totals, .Rows, .Kept, .Whole, .Told
--   App.Analytics     App/src/infrastructure/services/AnalyticsService.ts and what App.Sync tells it
--   App.Api, App.Cart App/src/presentation/store/slices/cartSlice.ts: answers and errors of the
--                     calls, the thunks and the reducer
--   App.Auth          App/src/presentation/store/slices/authSlice.ts and
--                     App/src/infrastructure/persistence/SecureStorageService.ts
--     .Requests       App/src/services/api.ts, App/src/infrastructure/api/httpClient.ts
--   App.Register      the request of App/src/presentation/features/Auth/screens/RegisterScreen.tsx
--   App.Screen        App/src/presentation/features/Cart/screens/CartScreen.tsx over App.Cart
--   App.Middleware    App/src/presentation/store/middleware/offlineMiddleware.ts
--   App.Network       App/src/presentation/shared/hooks/useNetworkStatus.ts, beside App.Sync
--   App.Connections   App/src/presentation/shared/hooks/useSignalRConnection.ts
--   App.Signals       useCartSignal.ts, useOrderSignal.ts and useNotificationSignal.ts of
--                     App/src/presentation/shared/hooks
--   App.Biometrics    App/src/infrastructure/services/BiometricAuthService.ts
--     .Hook, .Checked App/src/presentation/features/Auth/hooks/useBiometricAuth.ts
--     .Device, .Same  App/src/presentation/shared/hooks/useBiometrics.ts, and the two hooks compared
--   Http              Web/src/infrastructure/api/httpClient.ts; Admin.Http is the same client with
--                     the keys of Admin/src/lib/httpClient.ts
--   Web.Auth, Web.Cart, Web.Products, Web.Preferences, Web.Ui
--                     authSlice.ts, cartSlice.ts, productsSlice.ts, preferencesSlice.ts and
--                     uiSlice.ts of Web/src/presentation/store/slices
--   Web.Session       Web/src/infrastructure/persistence/AuthAPIService.ts and
--                     Web/src/presentation/features/auth/hooks/useAuth.ts over both tokens
--   Web.SignalR       Web/src/services/signalRService.ts
--   Web.Catalog       Web/src/infrastructure/persistence/ProductAPIRepository.ts and
--                     Web/src/presentation/features/product/hooks/useProducts.ts
--   Web.NewProduct    Web/src/presentation/features/admin/pages/AddProductPage.tsx over Web.Catalog
--   Web.Basket        Web/src/infrastructure/persistence/CartAPIRepository.ts and
--                     Web/src/presentation/features/cart/hooks/useCart.ts
--   Admin.Api         what the hooks of the panel do with a `ServiceResult` of
--                     Admin/src/lib/api/types.ts
--     Admin.Products  Admin/src/hooks/useProducts.ts
--     Admin.Carts     Admin/src/hooks/useCarts.ts
--     Admin.CachedValues, Admin.Users
--                     Admin/src/hooks/useCache.ts and Admin/src/hooks/useUsers.ts
--   Admin.Toolbar     Admin/src/components/data-table/bulk-actions.tsx
--   Admin.Pages       getPageNumbers of Admin/src/lib/utils.ts
--   Admin.Table       Admin/src/hooks/use-table-url-state.ts
--   Admin.Facets      Admin/src/components/data-table/faceted-filter.tsx
--   Admin.Cookies     Admin/src/lib/cookies.ts: .Split, .Parts, .Jar
--   Admin.Session     Admin/src/stores/auth-store.ts with the ways in and out of the panel, in
--                     Admin/src/hooks/useAuth.ts, components/sign-out-dialog.tsx, main.tsx and
--                     routes/_authenticated/route.tsx
--   Admin.Providers   Admin/src/context (theme, direction, font, layout) and the sidebar's cookie
--   Queries           the query clients: Web/src/services/queryClient.ts,
--                     App/src/infrastructure/config/queryClient.ts and Admin/src/main.tsx
--     .Cache, .Hooks  the cache of queries as an interface, and the hooks over it; `.Agrees` beside a
--                     component of hooks compares the cache with the server
--
-- Paths are those below src/Presentation. A function keeps its name, in snake case.
--
-- Libraries are parameters. Answers of the server (`axios`) are arguments of the handlers;
-- whether an SQL statement runs, the time that it writes and the order of equal times are a
-- `World` and an `Environment`; a `Device` stands for AsyncStorage and `expo-secure-store`,
-- with the law that a text that was set is read again; `LocalAuthentication` and `Phone` hold
-- the answers of the phone; `Json` has the law that a text made of a value parses to it. During
-- each `await` of SyncManager other tasks may change the cart; during a call of `Web.Session` the
-- interceptor of the client may store new tokens or clear them. What the browser itself says of a form
-- is an argument, and the keys that it handles itself are left out. `QueryClient` is the cache of
-- `@tanstack/react-query`, with the documented laws of its operations: a value that was put is
-- fresh, and `invalidateQueries` makes the keys with a prefix stale and no other. The servers
-- of `Web.Basket`, `Web.Catalog`, `Admin.Products`, `Admin.Carts`, `Admin.CachedValues` and
-- `Admin.Users` are records of requests, in which a refused request changes nothing and one
-- product or cart does not depend on another; there, requests do not overlap and a query is not
-- tried again. No loop needs fuel: each runs over a list.
--
-- Not modelled: the markup of the screens, the hooks that only call a library, the generated
-- API clients, logging, and the server, which is not TypeScript. Prices are an abstract type;
-- other numbers are natural numbers, so that no quantity, page or identifier is negative or a
-- fraction.
pub mod Admin
pub mod App
pub mod Http
pub mod Json
pub mod Prelude
pub mod Queries
pub mod Storage
pub mod Web
