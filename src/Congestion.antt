-- ===== src/Congestion.antt =====
-- internal/congestion: BBR, its bandwidth sampler, and the helpers of the senders.
pub mod HybridSlowStart
pub mod BandwidthSampler
pub mod Bbr
pub mod RttStats
pub mod WindowedFilter
