-- ===== src/Stats.antt =====
-- What is measured: stats/timerpc.go and stats/periodicsampler.go.
pub mod Timers
pub mod Sampler
