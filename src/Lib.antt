-- ===== src/Lib.antt =====
-- TalkGo: the server of a translator for two speakers. Rooms between two languages, sessions of
-- their participants, a service that carries out the use cases, a rate limiter before it, a hub
-- of WebSocket clients, and a translator of speech.
--
-- - internal/domain/room/room.go: Room. `Room.Code` has the short codes, `Room.Laws` and
--   `Room.CodeLaws` what holds of them.
-- - internal/domain/session/session.go: Session, with `Session.Laws`.
-- - internal/app/roomsvc/repository.go: Repository, with `Repository.Laws`.
-- - internal/app/roomsvc/service.go: Service. `Service.State` has the state and the ports;
--   `Create`, `Delete`, `Join`, `Leave`, `Grace` and `Signal` have the operations CreateRoom,
--   DeleteRoom, JoinRoom, LeaveRoom, OnDisconnect and HandleSignaling; `History` has the events
--   in any order; `Consistent`, `Preserved`, `History.Sound` and `History.Invariant` have the
--   invariant; `Promises`, `Codes` and `Sweep` what callers rely on.
-- - internal/adapters/http/ratelimit.go: RateLimiter, with `Quota`, `Retry`, `Cleanup` and
--   `Ticks`; `ClientIp` has clientIP, `Spoofed` what a client can make of it.
-- - internal/adapters/translator/pipeline_translator.go: Translator. `Prompt` has the test for
--   echoes of the prompt, `Drain` the ordered drainer, `Order` and `InOrder` its proof.
-- - internal/app/roomsvc/pipeline.go: Pipeline, with `Frames` and `Counts`, `Whole` (both
--   halves), `ErrorCount` (logSessionError), `Tracked` (the tracker of a half, with `Short` and
--   `Late`), `Flow` (forwarding and sending), `Heard` (the whole way of a phrase) and `Speech`
--   (sendTTSAudio); the entry of a pipeline into the service is in `Service.Grace`.
-- - internal/adapters/http/server.go: Http, with `Statuses`, `Serve` (the routes) and
--   `RoomQuota`.
-- - internal/app/roomsvc/latency.go: Latency, with `Stages`.
-- - internal/adapters/signaling/hub.go and client.go: Hub. `Pumps` are the two goroutines of a
--   client, with `InOrder` and `Stuck`. `Safe`, `Members` and `NoCrash` have the proof that it
--   sends on no closed channel.
-- - internal/adapters/codec: Codec, with `Bytes`, `Framing` (the cutting into frames) and
--   `Chunks`.
-- - internal/adapters/translator/openai_translate.go, openai_whisper_stt.go and
--   internal/adapters/tts: OpenAi, with `Stt` (the transcripts) and `Chunked`, the way of speech
--   to the codec.
-- - internal/adapters/translator/openai_realtime.go: Realtime, the sender and the receiver of
--   TranslateStream as steps in any order, with `Receiver` (the messages) and `Dial` (the
--   configuration); `Protocol`, `Said`, `Ear`, `Lossless`, `Spoken`, `Transcripts` and `Open` are
--   its theorems.
-- - internal/adapters/webrtc: WebRtc, with `Ice` (the configuration), `Rtp` (SendAudio) and
--   `Events`, the calls and callbacks in any order.
-- - cmd/server/main.go: Server, with `Atoi` (strconv.Atoi) and `Config`.
-- - cmd/server/main.go, as far as it wires the service and the hub: System. `Traces` has what a
--   run is for each, `Refines` the proof, `Joins` which clients are told of a session, `Alive`
--   what follows.
-- - cmd/loadgen: Loadgen. `Sort` has quickSort, `Scan`, `Partition`, `Loop`, `Ascending` and
--   `QuickSort` its proof, `Stats` the statistics, `Pings` the session, `Creation` createRoom.
-- - `Examples` has the theorems at concrete inputs, and runs of the parts.
--
-- Texts are lists of bytes (in Translator, of runes); times and durations are nanoseconds; maps
-- are association lists (`Prelude.Dict`). Each operation of the service is one step, which its
-- mutexes make of most of it; NotifySession, commit, logSessionError and the calls of the
-- tracker, which are several steps in the source, are several steps here; and an order of
-- operations and timers is a list of events. Clocks, random bytes, google/uuid, the WebRTC peer,
-- the repository's `Save`, lingua, the translation and the synthesis are arguments. The loops on
-- fuel: the drainer's has the number of pending results, of which each round takes one out; the
-- encoder's the number of waiting samples, of which each round takes 480; quickSort's the number
-- of measurements, its partition's the length of the slice, and its inner loops' the indices that
-- are left.
--
-- Not modelled: the network, libopus and Pion themselves, log lines, cancellation of contexts
-- (but in Realtime), and the interleaving within the operations that are one step.
pub mod Prelude
pub mod Room
pub mod Session
pub mod Repository
pub mod RateLimiter
pub mod Service
pub mod Translator
pub mod Hub
pub mod Latency
pub mod Http
pub mod Pipeline
pub mod Codec
pub mod OpenAi
pub mod Realtime
pub mod WebRtc
pub mod System
pub mod Server
pub mod Loadgen
pub mod Examples
