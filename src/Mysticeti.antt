-- ===== src/Mysticeti.antt =====
-- mysticeti/crates/mysticeti-core: the consensus, from the committee to the committed sequence.
pub mod Types
pub mod AuthoritySet
pub mod Committee
pub mod ThresholdClock
pub mod Blocks
pub mod RangeMap
pub mod BlockStore
pub mod Linearizer
pub mod BlockManager
pub mod Tests
