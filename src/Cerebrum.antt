-- ===== src/Cerebrum.antt =====
-- packages/cerebrum: the calls of the large language model; of these, how a call is tried again.
pub mod Retry
