-- ===== src/Authz.antt =====
-- internal/authz: which request may do what. The children model the routes (actions.go), the request
-- context and the policies (middleware.go, policies/base.cedar), and the middleware itself.
pub mod Actions
pub mod Context
pub mod Policies
pub mod Middleware
