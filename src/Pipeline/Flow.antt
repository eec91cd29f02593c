-- ===== src/Pipeline/Flow.antt =====
-- What flows through a half once its streams are handed over: the output of the translator becomes
-- notifications, and packets for the target. The context is not cancelled.
use talk_go.Prelude.{Bool, List, Option, Text, [], if◌then◌else◌, nat_eq, text_eq, txt, ℕ, ◌∷◌}
use talk_go.Service.State.{PortCall, notify}
use talk_go.Translator.Drain.{Output, transcript, synthesis, audio}
use talk_go.WebRtc.{PionPeer, PeerError}
use talk_go.WebRtc.Rtp.{Packet, send_audio}
use talk_go.Codec.{Opus, encode}

-- The two channels of `driven.TranslateResult`.
abbrev pub transcripts : List Output → List Text
transcripts [] = []
transcripts (transcript t ∷ os) = t ∷ transcripts os
transcripts (synthesis t ∷ os) = transcripts os
transcripts (audio pcm ∷ os) = transcripts os

abbrev pub audios : List Output → List Text
audios [] = []
audios (transcript t ∷ os) = audios os
audios (synthesis t ∷ os) = audios os
audios (audio pcm ∷ os) = pcm ∷ audios os

-- The goroutine that forwards transcripts: the notifications, and what it gives to goroutines of
-- `sendTTSAudio` if there is a `tts`.
unfoldable pub forward_transcripts : Bool → Text → List Text → List PortCall × List Text
forward_transcripts tts target [] = ([], [])
forward_transcripts tts target (text ∷ texts) =
    let (told, spoken) = forward_transcripts tts target texts in
    (
      notify target (txt "transcript") ((txt "text", text) ∷ []) ∷ told,
      if tts then text ∷ spoken else spoken,
    )

-- Stages 4 and 5 of `runHalf`, with the Opus codec.
unfoldable pub send_stage :
    Opus → (ℕ → Option PeerError) → PionPeer → Text → List Text → List Packet × Option PeerError
send_stage opus write peer target pcms = send_audio write target (encode opus pcms) peer
