-- ===== src/Pipeline/Heard.antt =====
-- What the partner hears and reads of what is spoken: the translator, the forwarding, the codec and
-- the peer in one.
use talk_go.Prelude.Dict.{lookup}
use talk_go.Prelude.{
  All, Bool, Distinct, List, Option, Text, [], ap, contains, false, if◌then◌else◌, length, ltb, map,
  nat_eq, refl, some, subst, text_eq, true, txt, ℕ, ◌%◌, ◌∷◌, ◌≡◌,
}
use talk_go.Service.State.{PortCall, notify}
use talk_go.Translator.{Engines, fan_out, translate_phrase}
use talk_go.Translator.Drain.{drain_all, new_drainer}
use talk_go.Translator.InOrder.{emit_all, result_at, spoken_in_order}
use talk_go.WebRtc.{PeerError, new_pion_peer}
use talk_go.WebRtc.Events.{Event, happen_all}
use talk_go.WebRtc.Rtp.{Sent, send_audio-Sent, send_audio}
use talk_go.Codec.{Opus, encode}
use talk_go.Codec.Chunks.{joined, kept, encode-joined, kept_all}
use talk_go.Pipeline.Flow.{transcripts, audios, forward_transcripts, send_stage}

-- A transcript, as the target is told of it.
abbrev pub transcript_notice : Text → Text → PortCall
transcript_notice target text = notify target (txt "transcript") ((txt "text", text) ∷ [])

forward_transcripts_lem :
    (tts : Bool) (target : Text) (texts : List Text)
    → forward_transcripts tts target texts
      ≡ (map (transcript_notice target) texts, if tts then texts else [])
unfolding forward_transcripts
forward_transcripts_lem true target [] = refl
forward_transcripts_lem false target [] = refl
forward_transcripts_lem true target (t ∷ ts) = rw (forward_transcripts_lem true target ts) refl
forward_transcripts_lem false target (t ∷ ts) = rw (forward_transcripts_lem false target ts) refl

-- The packets for a session with a connection, after any events, are those of the whole audio in one
-- piece, its chunks of odd length left out.
send_stage-Sent :
    (opus : Opus) (write : ℕ → Option PeerError) (b : Bool) (es : List Event) (target : Text)
    (pc : ℕ) (pcms : List Text)
    → (let p = happen_all es (new_pion_peer b) in
        lookup target p.peers ≡ some pc
        → Sent write 0
            (encode opus (joined (kept pcms) ∷ []))
            (send_stage opus write p target pcms))
unfolding send_stage
send_stage-Sent opus write b es target pc pcms known =
    let p = happen_all es (new_pion_peer b) in
    subst (λ frames. Sent write 0 frames (send_audio write target (encode opus pcms) p))
      (encode-joined opus pcms) (send_audio-Sent write b es target (encode opus pcms) pc known)

pub phrases_heard :
    (opus : Opus) (write : ℕ → Option PeerError) (b tts : Bool) (es : List Event) (target : Text)
    (pc : ℕ) (eng : Engines) (lang : Text) (ts : List Text) (arrivals : List ℕ)
    → (let p = happen_all es (new_pion_peer b) in
        let phrases = fan_out eng lang 0 ts in
        let out = (drain_all eng new_drainer (map (result_at eng phrases) arrivals)).out in
        let said = emit_all eng (map (translate_phrase eng) phrases) in
        lookup target p.peers ≡ some pc
        → Distinct arrivals
        → ((k : ℕ) → contains k arrivals ≡ ltb k (length phrases))
        → All (λ pcm. length pcm % 2 ≡ 0) (audios said)
        → (forward_transcripts tts target (transcripts out)).0
            ≡ map (transcript_notice target) (transcripts said)
          × Sent write 0
              (encode opus (joined (audios said) ∷ []))
              (send_stage opus write p target (audios out)))
phrases_heard opus write b tts es target pc eng lang ts arrivals known once all even =
    let p = happen_all es (new_pion_peer b) in
    let said = emit_all eng (map (translate_phrase eng) (fan_out eng lang 0 ts)) in
    rw (spoken_in_order eng lang ts arrivals once all) (
      ap (λ r. r.0) (forward_transcripts_lem tts target (transcripts said)),
      subst
          (λ pcms.
            Sent write 0 (encode opus (joined pcms ∷ []))
              (send_stage opus write p target (audios said)))
          (kept_all (audios said) even)
          (send_stage-Sent opus write b es target pc (audios said) known),
    )
