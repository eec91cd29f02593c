-- ===== src/Examples.antt =====
-- The theorems at concrete inputs, and runs of the program's parts.
mod RealtimeRuns
mod RoomRuns
mod LimiterRuns
mod ServiceRuns
mod TranslatorRuns
mod HubRuns
mod PumpRuns
mod HttpRuns
mod PipelineRuns
mod CodecRuns
mod WebRtcRuns
mod SystemRuns
mod ServerRuns
mod LoadgenRuns
mod OpenAiRuns
mod FlowRuns
