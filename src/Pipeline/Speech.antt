-- ===== src/Pipeline/Speech.antt =====
-- `sendTTSAudio` of internal/app/roomsvc/pipeline.go, for a service with a `tts`. The context is not
-- cancelled.
use talk_go.Prelude.Dict.{lookup}
use talk_go.Prelude.{
  Bool, List, Option, Option-cases, Sum-cases, Text, [], arith, get_elem?, inl, inr, nat_eq, none,
  refl, some, subst, suc, sym, text_eq, txt, zero, ℕ, ℕ_discrete, ◌%◌, ◌*◌, ◌+◌, ◌↔◌, ◌∙◌, ◌∷◌, ◌≡◌,
  ◌⊎◌,
}
use talk_go.OpenAi
use talk_go.OpenAi.{chunks, Read, SpeechReply, speech, synthesize}
use talk_go.OpenAi.Chunked.{body, Whole, encode-chunks}
use talk_go.WebRtc.{PeerError, PionPeer, new_pion_peer}
use talk_go.WebRtc.Events.{Event, happen_all}
use talk_go.WebRtc.Rtp.{Packet, Sent, send_audio, send_audio-Sent, stamped, send_from-Sent}
use talk_go.Codec.{Opus, encode}

-- What `tts` and the codec answer; the ports' errors are told apart by a text.
pub record SpeechPorts : Type 0 where
  pub synthesize : Text → Text → Text ⊎ List Text
  pub encode : List Text → Text ⊎ List Text

abbrev send_warning : List Packet × Option PeerError → List Packet × Option Text
send_warning (sent, none) = (sent, none)
send_warning (sent, some e) = (sent, some (txt "tts_send_error"))

-- The packets, and the warning that is logged.
unfoldable pub send_tts_audio :
    SpeechPorts → (ℕ → Option PeerError) → PionPeer → Text → Text → Text → List Packet × Option Text
send_tts_audio ports write peer target text lang = elim (ports.synthesize text lang) [
  | inl e ↦ ([], some (txt "tts_synthesize_error"))
  | inr pcms ↦ elim (ports.encode pcms) [
    | inl e ↦ ([], some (txt "tts_encode_error"))
    | inr frames ↦ send_warning (send_audio write target frames peer)
  ]
]

-- The packet has the number and the time of the k-th of a stream.
abbrev Numbered : ℕ → Option Packet → Type 0
Numbered k none = Unit {0}
Numbered k (some p) =
    (p.sequence_number ≡ k % 65536) × (p.timestamp ≡ 960 * k % 4294967296) × (p.ssrc ≡ 1)

stamped-Numbered :
    (n i k : ℕ) (frames : List Text) → k ≡ n + i → Numbered k (get_elem? (stamped n frames) i)
stamped-Numbered n i k [] e = tt
stamped-Numbered n zero k (f ∷ fs) e = omega (arith, e)
stamped-Numbered n (suc i) k (f ∷ fs) e = stamped-Numbered (suc n) i k fs (omega (arith, e))

send_audio-Numbered :
    (write : ℕ → Option PeerError) (sid : Text) (frames : List Text) (p : PionPeer) (i : ℕ)
    → Numbered i (get_elem? (send_audio write sid frames p).0 i)
unfolding send_audio
send_audio-Numbered write sid frames p i = elim (Option-cases (lookup sid p.local_tracks)) [
  | inl e ↦ rw (e, send_audio) tt
  | inr (track, e) ↦
      rw (e, send_audio)
        (subst (λ l. Numbered i (get_elem? l i)) (sym (send_from-Sent write 0 frames).0)
          (stamped-Numbered 0 i i _ (omega arith)))
]

warned-Numbered :
    (i : ℕ) (r : List Packet × Option PeerError)
    → Numbered i (get_elem? r.0 i)
    → Numbered i (get_elem? (send_warning r).0 i)
warned-Numbered i (sent, none) h = h
warned-Numbered i (sent, some e) h = h

module _ (ports : SpeechPorts) (write : ℕ → Option PeerError) (peer : PionPeer)
    (target : Text) where
  speech-Numbered :
      (text lang : Text) (i : ℕ)
      → Numbered i (get_elem? (send_tts_audio ports write peer target text lang).0 i)
  unfolding send_tts_audio
  speech-Numbered text lang i = elim (Sum-cases (ports.synthesize text lang)) [
    | inl (e, bad) ↦ rw (bad, send_tts_audio) tt
    | inr (pcms, made) ↦ elim (Sum-cases (ports.encode pcms)) [
      | inl (e, bad) ↦ rw (made, bad, send_tts_audio) tt
      | inr (frames, coded) ↦
          rw (made, coded, send_tts_audio)
            (warned-Numbered i (send_audio write target frames peer)
              (send_audio-Numbered write target frames peer i))
    ]
  ]

-- Two speeches for a target, of whatever texts, at whatever times, with whatever peers and answers of
-- WriteRTP: where both have an i-th packet, the two carry the same sequence number and the same
-- timestamp in the same stream, so a later speech repeats the numbers of an earlier one.
pub speech_repeats :
    (ports : SpeechPorts) (write write' : ℕ → Option PeerError) (peer peer' : PionPeer)
    (target : Text) (text text' lang : Text) (i : ℕ) (p q : Packet)
    → get_elem? (send_tts_audio ports write peer target text lang).0 i ≡ some p
    → get_elem? (send_tts_audio ports write' peer' target text' lang).0 i ≡ some q
    → (p.sequence_number ≡ q.sequence_number) × (p.timestamp ≡ q.timestamp) × (p.ssrc ≡ q.ssrc)
speech_repeats ports write write' peer peer' target text text' lang i p q first second =
    let a = subst (Numbered i) first (speech-Numbered ports write peer target text lang i) in
    let b = subst (Numbered i) second (speech-Numbered ports write' peer' target text' lang i) in
    (a.0 ∙ sym b.0, a.1 ∙ sym b.1, a.2 ∙ sym b.2)

-- The ports of the program: OpenAI's speech, of which `reply` is the answer, and the Opus codec.
abbrev pub real_ports : (Text → SpeechReply) → Opus → SpeechPorts
real_ports reply opus = record {
  synthesize = λ text lang. elim (OpenAi.synthesize (reply text)) [
    | inl e ↦ inl (txt "tts")
    | inr pcms ↦ inr pcms
  ];
  encode = λ pcms. inr (encode opus pcms);
}

speech_packets :
    (opus : Opus) (reply : Text → SpeechReply) (write : ℕ → Option PeerError) (peer : PionPeer)
    (target text lang answer : Text) (rs : List Read)
    → reply text ≡ speech 200 answer rs
    → send_tts_audio (real_ports reply opus) write peer target text lang
      ≡ send_warning (send_audio write target (encode opus (chunks rs)) peer)
unfolding send_tts_audio OpenAi.synthesize send_audio ℕ_discrete
speech_packets opus reply write peer target text lang answer rs answered =
    rw (send_tts_audio, real_ports, answered, OpenAi.synthesize) refl

warned-Sent :
    (write : ℕ → Option PeerError) (frames : List Text) (r : List Packet × Option PeerError)
    → Sent write 0 frames r
    → Sent write 0 frames ((send_warning r).0, r.1)
warned-Sent write frames (sent, none) s = s
warned-Sent write frames (sent, some e) s = s

warning-none : (r : List Packet × Option PeerError) → (send_warning r).1 ≡ none ↔ r.1 ≡ none
warning-none (sent, none) = ((λ h. refl), (λ h. refl))
warning-none (sent, some e) = ((λ h. cc), (λ h. cc))

-- The service answers a text with status 200 and whole samples, and the target has a connection:
-- what is sent are the numbered packets of the whole body, as if it had come in one read, up to the
-- first error of WriteRTP; a warning is logged exactly if there is one.
pub speech-Sent :
    (opus : Opus) (reply : Text → SpeechReply) (write : ℕ → Option PeerError) (b : Bool)
    (es : List Event) (target text lang answer : Text) (rs : List Read) (pc : ℕ)
    → reply text ≡ speech 200 answer rs
    → Whole rs
    → lookup target (happen_all es (new_pion_peer b)).peers ≡ some pc
    → (let r =
          send_tts_audio
            (real_ports reply opus)
            write
            (happen_all es (new_pion_peer b))
            target
            text
            lang in
        (failed : Option PeerError) × Sent write 0 (encode opus (body rs ∷ [])) (r.0, failed)
        × (r.1 ≡ none ↔ failed ≡ none))
speech-Sent opus reply write b es target text lang answer rs pc answered whole known =
    let peer = happen_all es (new_pion_peer b) in
    let sent = send_audio write target (encode opus (chunks rs)) peer in
    (
      sent.1,
      subst (λ r. Sent write 0 (encode opus (body rs ∷ [])) (r.0, sent.1))
          (sym (speech_packets opus reply write peer target text lang answer rs answered))
          (warned-Sent write (encode opus (body rs ∷ [])) sent (
            subst (λ fs. Sent write 0 fs sent) (encode-chunks opus rs whole)
              (send_audio-Sent write b es target (encode opus (chunks rs)) pc known))),
      subst (λ r. r.1 ≡ none ↔ sent.1 ≡ none)
          (sym (speech_packets opus reply write peer target text lang answer rs answered))
          (warning-none sent),
    )
