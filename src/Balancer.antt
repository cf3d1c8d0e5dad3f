-- ===== src/Balancer.antt =====
-- load_balancer/main.go: the feed that the load balancer keeps in memory, and its choice of a
-- backend.
pub mod FeedStore
pub mod Selection
pub mod SharedDb
