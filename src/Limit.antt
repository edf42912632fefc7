-- ===== src/Limit.antt =====
-- apps/api/src/rate-limit/rate-limit.service.ts: `Defs` is the service on the commands of Redis, which
-- are parameters, and `Window` the counting that it does.
pub mod Defs
pub mod Window
mod Tests
