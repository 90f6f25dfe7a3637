-- ===== src/Tools/Sse/Framing.antt =====
-- tools/sse_probe.py: how `stream` cuts the bytes that arrive into frames.
use homeassistant_2gig_gc.Prelude.{
  ℕ, zero, suc, Bool, Option, none, some, List, [], ◌∷◌, length, drop, starts_with, if◌then◌else◌,
}

abbrev pub Bytes : Type 0
Bytes = List ℕ

abbrev pub cons_frame : ℕ → Option (Bytes × Bytes) → Option (Bytes × Bytes)
cons_frame b none = none
cons_frame b (some (frame, rest)) = some (b ∷ frame, rest)

-- `buf.partition(sep)` without its middle part, or nothing where `sep` is not in `buf`; `sep` is not
-- empty.
unfoldable pub partition : Bytes → Bytes → Option (Bytes × Bytes)
unfolding starts_with
partition sep [] = none
partition sep (b ∷ buf) =
    let later = cons_frame b (partition sep buf) in
    if starts_with (b ∷ buf) sep then some ([], drop (length sep) (b ∷ buf)) else later

abbrev pub cons_first : Bytes → List Bytes × Bytes → List Bytes × Bytes
cons_first frame (frames, rest) = (frame ∷ frames, rest)

-- `while sep in buf`, for at most `fuel` frames: the frames, and what is left in `buf`.
unfoldable pub drain_for : ℕ → Bytes → Bytes → List Bytes × Bytes
drain_for zero sep buf = ([], buf)
drain_for (suc fuel) sep buf = elim (partition sep buf) [
  | none ↦ ([], buf)
  | some (frame, rest) ↦ cons_first frame (drain_for fuel sep rest)
]

-- Every frame takes a byte at least.
unfoldable pub drain : Bytes → Bytes → List Bytes × Bytes
unfolding drain_for partition
drain sep buf = drain_for (length buf) sep buf

-- `b"\n\n" if blank_framed else b"\n"`
abbrev pub separator : Bool → Bytes
separator blank_framed = if blank_framed then 10 ∷ 10 ∷ [] else 10 ∷ []
