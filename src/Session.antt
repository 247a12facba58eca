-- ===== src/Session.antt =====
-- The session store: src/pcrf_session_cache.cpp over the indexes of
-- src/pcrf_session_cache_index.cpp.
pub mod FramedIp
pub mod Links
pub mod Subscribers
pub mod Store
