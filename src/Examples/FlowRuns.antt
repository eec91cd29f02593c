-- ===== src/Examples/FlowRuns.antt =====
-- Three phrases on their way to the partner, and two speeches of them.
use talk_go.Prelude.{
  All, Option, Text, [], arith, inr, length, list_dec, map, nat_eq, none, refl, some, text_eq, true,
  txt, ℕ_discrete, ◌%◌, ◌↔◌, ◌∷◌, ◌≡◌,
}
use talk_go.Prelude.Dict.{lookup, insert}
use talk_go.Codec.{encode}
use talk_go.Codec.Chunks.{joined}
use talk_go.Translator.{fan_out, translate_phrase}
use talk_go.Translator.Drain.{say, drain_all, new_drainer, emit}
use talk_go.Translator.InOrder.{emit_all, result_at}
use talk_go.WebRtc.{new_pion_peer, PeerError, create_session, on_audio_track}
use talk_go.WebRtc.Events.{happen_all, happen}
use talk_go.WebRtc.Rtp.{Sent, Packet, send_audio, send_from}
use talk_go.OpenAi.{SpeechReply, speech}
use talk_go.OpenAi.Chunked.{body}
use talk_go.Pipeline.Flow.{transcripts, audios, forward_transcripts, send_stage}
use talk_go.Pipeline.Heard.{transcript_notice, phrases_heard}
use talk_go.Pipeline.Speech.{SpeechPorts, send_tts_audio, real_ports, speech_repeats, speech-Sent}
use talk_go.Examples.CodecRuns.{opus}
use talk_go.Examples.OpenAiRuns.{reads}
use talk_go.Examples.TranslatorRuns.{
  engines, transcripts as phrases, arrivals, fanned, each_once, each_there,
}
use talk_go.Examples.WebRtcRuns.{sid, events, fail_third}

connected : lookup sid (happen_all events (new_pion_peer true)).peers ≡ some 7
unfolding happen_all happen create_session on_audio_track lookup insert text_eq list_dec ℕ_discrete
connected = refl

whole_samples :
    All
      (λ pcm. length pcm % 2 ≡ 0)
      (audios
        (emit_all engines (map (translate_phrase engines) (fan_out engines (txt "en") 0 phrases))))
unfolding emit_all emit say translate_phrase text_eq list_dec ℕ_discrete
whole_samples = rw fanned (refl, (refl, tt))

phrases_heard_example :
    let p = happen_all events (new_pion_peer true) in
    let accepted = fan_out engines (txt "en") 0 phrases in
    let out = (drain_all engines new_drainer (map (result_at engines accepted) arrivals)).out in
    let said = emit_all engines (map (translate_phrase engines) accepted) in
    (forward_transcripts true sid (transcripts out)).0
      ≡ map (transcript_notice sid) (transcripts said)
    × Sent fail_third 0
        (encode opus (joined (audios said) ∷ []))
        (send_stage opus fail_third p sid (audios out))
phrases_heard_example =
    phrases_heard opus fail_third true true events sid 7 engines (txt "en") phrases arrivals
      connected each_once (λ k. rw fanned (each_there k)) whole_samples

abbrev reply : Text → SpeechReply
reply text = speech 200 (txt "OK") reads

speech-Sent_example :
    let r =
      send_tts_audio
        (real_ports reply opus)
        fail_third
        (happen_all events (new_pion_peer true))
        sid
        (txt "hola")
        (txt "es") in
    (failed : Option PeerError) × Sent fail_third 0 (encode opus (body reads ∷ [])) (r.0, failed)
    × (r.1 ≡ none ↔ failed ≡ none)
speech-Sent_example =
    speech-Sent opus reply fail_third true events sid (txt "hola") (txt "es") (txt "OK") reads 7
      refl (omega arith, (omega arith, (omega arith, tt))) connected

-- Frames that are the bytes of the text.
abbrev direct : SpeechPorts
direct = record { synthesize = λ text lang. inr (text ∷ text ∷ []); encode = λ pcms. inr pcms }

abbrev second_packet : Text → Packet
second_packet frame = record {
  version = 2;
  payload_type = 111;
  sequence_number = 1;
  timestamp = 960;
  ssrc = 1;
  payload = frame;
}

speech_repeats_example :
    let p = second_packet (txt "a") in
    let q = second_packet (txt "b") in
    (p.sequence_number ≡ q.sequence_number) × (p.timestamp ≡ q.timestamp) × (p.ssrc ≡ q.ssrc)
unfolding send_tts_audio send_audio send_from happen_all happen create_session on_audio_track lookup
    insert text_eq list_dec ℕ_discrete
speech_repeats_example =
    let p = happen_all events (new_pion_peer true) in
    speech_repeats direct fail_third fail_third p p sid (txt "a") (txt "b") (txt "es") 1
      (second_packet (txt "a")) (second_packet (txt "b")) refl refl
