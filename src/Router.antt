-- ===== src/Router.antt =====
-- internal/router: which (model, route) pairs may serve a request, and in which order.
pub mod Filter
pub mod Rank
