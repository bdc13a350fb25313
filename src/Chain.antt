-- ===== src/Chain.antt =====
-- hammer2_chain.c: the block arrays of a chain, their search, insertion and deletion.
pub mod Types
pub mod Find
pub mod Account
pub mod Insert
pub mod Delete
pub mod Combined
pub mod RoundTrip
