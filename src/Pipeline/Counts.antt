-- ===== src/Pipeline/Counts.antt =====
-- How a half of a pipeline ends.
use talk_go.Prelude.{
  Option-cases, [], arith, inl, inr, length, nat_eq, none, refl, text_eq, txt, ◌+◌, ◌∷◌, ◌≡◌, ◌⊎◌,
}
use talk_go.Pipeline.{HalfPorts, PipelineHalf, run_half, failed}

-- A half whose audio could be set up counts its frames once: as processed, with a call of `Emit` for
-- "ok" and no notification, or as errors, with one for "error" and one notification.
pub run_half-frames :
    (ports : HalfPorts) (half : PipelineHalf)
    → ports.on_audio_track ≡ none
    → let r = run_half ports half in
      (r.half.total_chunks + r.half.error_chunks
        ≡ half.total_chunks + half.error_chunks + ports.frames)
      × (((r.half.error_chunks ≡ half.error_chunks)
            × (r.emits ≡ txt "ok" ∷ [])
            × (length r.notified ≡ 0))
          ⊎ ((r.half.total_chunks ≡ half.total_chunks)
              × (r.emits ≡ txt "error" ∷ [])
              × (length r.notified ≡ 1)))
unfolding run_half failed
run_half-frames ports half set_up = elim (Option-cases ports.decode) [
  | inr (e, bad) ↦ rw (set_up, run_half, bad) (omega arith, inr (refl, refl, refl))
  | inl decoded ↦ elim (Option-cases ports.translate_stream) [
    | inr (e, bad) ↦ rw (set_up, run_half, decoded, bad) (omega arith, inr (refl, refl, refl))
    | inl translated ↦ elim (Option-cases ports.encode) [
      | inr (e, bad) ↦
          rw (set_up, run_half, decoded, translated, bad) (omega arith, inr (refl, refl, refl))
      | inl encoded ↦ elim (Option-cases ports.send_audio) [
        | inr (e, bad) ↦
            rw (set_up, run_half, decoded, translated, encoded, bad)
              (omega arith, inr (refl, refl, refl))
        | inl sent ↦
            rw (set_up, run_half, decoded, translated, encoded, sent)
              (omega arith, inl (refl, refl, refl))
      ]
    ]
  ]
]
