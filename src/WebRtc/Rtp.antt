-- ===== src/WebRtc/Rtp.antt =====
-- PionPeer.SendAudio of internal/adapters/webrtc/pion_peer.go. The frames are those that come, each
-- with its tick, before the channel is closed or the context ends; a frame that is taken when the
-- context ends before its tick is not among them.
use talk_go.Prelude.{
  Bool, List, Option, Option-cases, Text, [], ap, arith, inl, inr, length, nat_eq, none, refl, some,
  subst, suc, take, text_eq, ℕ, ℕ_discrete, ◌%◌, ◌*◌, ◌+◌, ◌<◌, ◌^◌, ◌∙◌, ◌∷◌, ◌≡◌, ◌≤◌,
}
use talk_go.WebRtc.Events.{Event, happen_all}
use talk_go.WebRtc.Events.Keys.{happen_all-Agree}
use talk_go.WebRtc.{new_pion_peer}
use talk_go.Prelude.Dict.{lookup}
use talk_go.WebRtc.{PeerError, PionPeer, no_track}

pub record Packet : Type 0 where
  pub version : ℕ
  pub payload_type : ℕ
  pub sequence_number : ℕ
  pub timestamp : ℕ
  pub ssrc : ℕ
  pub payload : Text

abbrev packet : ℕ → ℕ → Text → Packet
packet seq_num timestamp frame = record {
  version = 2;
  payload_type = 111;
  sequence_number = seq_num;
  timestamp = timestamp;
  ssrc = 1;
  payload = frame;
}

-- The packets that are written, and the error of WriteRTP that ends the loop; `write n` is its answer
-- to call n.
unfoldable pub send_from :
    (ℕ → Option PeerError) → ℕ → ℕ → ℕ → List Text → List Packet × Option PeerError
send_from write n seq_num timestamp [] = ([], none)
send_from write n seq_num timestamp (frame ∷ frames) =
    let rest =
      send_from write (suc n) ((seq_num + 1) % 2 ^ 16) ((timestamp + 960) % 2 ^ 32) frames in
    elim (write n) [
      | some e ↦ ([], some e)
      | none ↦ (packet seq_num timestamp frame ∷ rest.0, rest.1)
    ]

unfoldable pub send_audio :
    (ℕ → Option PeerError) → Text → List Text → PionPeer → List Packet × Option PeerError
send_audio write sid frames p = elim (lookup sid p.local_tracks) [
  | none ↦ ([], some no_track)
  | some track ↦ send_from write 0 0 0 frames
]

-- Packets that carry the frames, the first with number `n` of the session.
abbrev pub stamped : ℕ → List Text → List Packet
stamped n [] = []
stamped n (frame ∷ frames) =
    packet (n % 65536) (960 * n % 4294967296) frame ∷ stamped (suc n) frames

-- What comes of frames that are written from call `n` on.
abbrev pub Sent : (ℕ → Option PeerError) → ℕ → List Text → List Packet × Option PeerError → Type 0
Sent write n frames (sent, result) =
    sent ≡ stamped n (take (length sent) frames)
    × ((i : ℕ) → n ≤ i → i < n + length sent → write i ≡ none)
    × (result ≡ none → length sent ≡ length frames)
    × ((e : PeerError) → result ≡ some e → write (n + length sent) ≡ some e)

module _ (write : ℕ → Option PeerError) (n : ℕ) (frame : Text) (frames : List Text) where
  written_step :
      (sent : List Packet) (result : Option PeerError)
      → write n ≡ none
      → Sent write (suc n) frames (sent, result)
      → Sent write n
          (frame ∷ frames)
          (packet (n % 65536) (960 * n % 4294967296) frame ∷ sent, result)
  written_step sent result fine (same, before, all, error) = (
    ap (λ (l : List Packet). packet (n % 65536) (960 * n % 4294967296) frame ∷ l) same,
    λ i h k. elim (ℕ_discrete n i) [
      | yes now ↦ subst (λ j. write j ≡ none) now fine
      | no later ↦ before i (omega arith) (omega arith)
    ],
    λ done. ap suc (all done),
    λ e failed. subst (λ j. write j ≡ some e) (omega arith) (error e failed),
  )

  refused_step : (e : PeerError) → write n ≡ some e → Sent write n (frame ∷ frames) ([], some e)
  refused_step e failed = (
    refl,
    λ i h k. absurd (omega arith),
    λ done. cc,
    λ e' same. subst (λ j. write j ≡ some e') (omega arith) (failed ∙ same),
  )

pub send_from-Sent :
    (write : ℕ → Option PeerError) (n : ℕ) (frames : List Text)
    → Sent write n frames (send_from write n (n % 65536) (960 * n % 4294967296) frames)
unfolding send_from
send_from-Sent write n [] = (refl, λ i h k. absurd (omega arith), λ e. refl, λ e h. cc)
send_from-Sent write n (frame ∷ frames) =
    let seq : (n % 65536 + 1) % 65536 ≡ suc n % 65536 = omega arith in
    let time : (960 * n % 4294967296 + 960) % 4294967296 ≡ 960 * suc n % 4294967296 = omega arith in
    elim (Option-cases (write n)) [
      | inl fine ↦
          rw (fine, seq, time, send_from)
            (written_step write n frame frames _ _ fine (send_from-Sent write (suc n) frames))
      | inr (e, failed) ↦ rw (failed, send_from) (refused_step write n frame frames e failed)
    ]

-- After any events, SendAudio for a session that has a connection finds a track. The packet written
-- i-th, from 0, carries frame i, the sequence number i modulo 65536 and the timestamp 960 * i modulo
-- 4294967296. All frames are sent if nil is answered; otherwise the packets are those before the
-- first error of WriteRTP, which is the answer.
pub send_audio-Sent :
    (write : ℕ → Option PeerError) (b : Bool) (es : List Event) (sid : Text) (frames : List Text)
    (pc : ℕ)
    → (let p = happen_all es (new_pion_peer b) in
        lookup sid p.peers ≡ some pc → Sent write 0 frames (send_audio write sid frames p))
unfolding send_audio
send_audio-Sent write b es sid frames pc known =
    let p = happen_all es (new_pion_peer b) in
    elim (Option-cases (lookup sid p.local_tracks)) [
      | inl e ↦ absurd (ground (arith, (happen_all-Agree b es).tracked sid))
      | inr (track, e) ↦ rw (e, send_audio) (send_from-Sent write 0 frames)
    ]
