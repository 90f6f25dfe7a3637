-- ===== src/Tools/Sse/Racing.antt =====
-- Which variants the race of tools/sse_probe.py calls talkers.
use homeassistant_2gig_gc.Prelude.{
  ℕ, ◌≤◌, ◌<◌, Option, List, [], ◌∷◌, map, Text, text_Eq, Dict, All, nat_eq, arith, Bool-cases, inl,
  inr,
}
use homeassistant_2gig_gc.Tools.Sse.Counting.{IsCounted}
use homeassistant_2gig_gc.Tools.Sse.Counts.{stream-IsCounted}
use homeassistant_2gig_gc.Tools.Sse.Program.{
  Args, Outside, Variant, subscribe, run_variants, talkers, all_variants, subscription,
}

module _ (o : Outside) (args : Args) where
  subscribe-IsCounted :
      (label path : Text) (params extra : Option (Dict Text Text)) (retries seconds : ℕ)
      → IsCounted (subscribe o args label path params extra retries seconds)
  unfolding subscribe
  subscribe-IsCounted label path params extra retries seconds =
      stream-IsCounted o.decode args.framing label
        (o.subscriber label (subscription args path params extra)) args.retry_after retries seconds

  talkers-run :
      (vs : List Variant)
      → All
          (λ r. (1 < r.chunks) × (1 ≤ r.frames))
          (talkers o args
            (map (λ v. subscribe o args v.label v.path v.params v.extra 0 args.seconds) vs))
  talkers-run [] = tt
  talkers-run (v ∷ vs) =
      let r = subscribe o args v.label v.path v.params v.extra 0 args.seconds in
      let counts = subscribe-IsCounted v.label v.path v.params v.extra 0 args.seconds in
      elim (Bool-cases (nat_eq r.events 0)) [
        | inl quiet ↦ rw quiet (talkers-run vs)
        | inr spoke ↦ rw spoke (
          (grind (arith, spoke, counts.quiet), ground (arith, spoke, counts.counted)),
          talkers-run vs,
        )
      ]

  -- A variant that the race reports as a talker has sent at least two chunks and a frame: no greeting in
  -- one chunk makes a talker.
  pub talkers-run_variants :
      All (λ r. (1 < r.chunks) × (1 ≤ r.frames)) (talkers o args (run_variants o args))
  unfolding run_variants
  talkers-run_variants = talkers-run all_variants
