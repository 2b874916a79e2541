-- ===== src/Tests.antt =====
-- Tests of the development: in-memory stand-ins for PostgreSQL and Redis, and runs of the theorems
-- on concrete inputs.
mod Table
mod Memory
mod Users
mod AccountRuns
mod SessionRuns
mod RouteRuns
mod Samples
mod WalRuns
mod ServiceRuns
mod CacheRuns
mod MiddlewareRuns
mod HandlerRuns
mod PagingRuns
mod StartRuns
