-- ===== src/Identity.antt =====
-- internal/dao/store: identity.go, identity_cache.go, identity_query.go, identity_lookup.go and
-- identity_atomic.go. `Resolve` finds or creates the `#user_id` of a record.
pub mod Mapping
pub mod Memory
pub mod Resolver
pub mod Atomic
pub mod Resolve
pub mod Repeat
pub mod Agreement
mod Tests
