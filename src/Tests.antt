-- ===== src/Tests.antt =====
-- Runs of the definitions on concrete inputs, and the theorems at such inputs.
mod RangeRuns
mod StreamingRuns
mod BridgeRuns
mod ProgramRuns
mod ShuffleRuns
mod CodecRuns
mod ConnectRuns
mod FetchRuns
mod IdRuns
mod CacheQueue
mod CacheRuns
