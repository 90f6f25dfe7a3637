-- ===== src/Tools/Mdns.antt =====
-- tools/mdns_probe.py: `decode_name`, which reads a DNS name that may be compressed. A packet is the
-- list of its bytes, each below 256; `decode` stands for Python's UTF-8 decoder with replacement
-- characters.
pub mod Halting
pub mod Names
pub mod Format
pub mod Reading
pub mod Layout
pub mod RoundTrip
pub mod Message
pub mod Services
pub mod Phases
pub mod Sniffing
use homeassistant_2gig_gc.Prelude.{
  ℕ, suc, ◌+◌, ◌*◌, ◌/◌, ◌%◌, Bool, true, false, Option, none, some, List, [], ◌∷◌, ◌++◌, Text,
  codes, nat_eq, leb, ltb, length, take, drop, if◌then◌else◌,
}

-- `buf[i]`, for `i` in range
abbrev pub byte_at : List ℕ → ℕ → ℕ
byte_at [] i = 0
byte_at (b ∷ buf) ℕ.zero = b
byte_at (b ∷ buf) (suc i) = byte_at buf i

-- `buf[off : off + n]`
abbrev pub slice : List ℕ → ℕ → ℕ → List ℕ
slice buf off n = take n (drop off buf)

-- The variables of the loop; `after` is `end`.
pub record Cursor : Type 0 where
  pub off : ℕ
  pub labels : List Text
  pub jumped : Bool
  pub after : ℕ
  pub hops : ℕ

-- How one pass through the loop ends: by `break`, or by going on.
pub data Turn : Type 0 where
  finished : List Text → ℕ → Turn
  going : Cursor → Turn

-- `ln & 0xC0 == 0xC0`
abbrev pub is_pointer : ℕ → Bool
is_pointer ln = nat_eq (ln / 64 % 4) 3

-- The value of `end` after a part of the name that stops there.
abbrev pub end_at : Cursor → ℕ → ℕ
end_at c stop = if c.jumped then c.after else stop

abbrev pub jump_to : Cursor → ℕ → Cursor
jump_to c ptr = record {
  off = ptr;
  labels = c.labels;
  jumped = true;
  after = end_at c (c.off + 2);
  hops = c.hops + 1;
}

-- The branch of a compression pointer.
unfoldable pub follow : List ℕ → ℕ → Cursor → Turn
follow buf ln c =
    if leb (length buf) (c.off + 1)
    then finished c.labels c.after
    else if ltb 20 (c.hops + 1)
    then finished c.labels (end_at c (c.off + 2))
    else going (jump_to c (ln % 64 * 256 + byte_at buf (c.off + 1)))

abbrev pub read_label : (List ℕ → Text) → List ℕ → ℕ → Cursor → Cursor
read_label decode buf ln c = record {
  off = c.off + 1 + ln;
  labels = c.labels ++ decode (slice buf (c.off + 1) ln) ∷ [];
  jumped = c.jumped;
  after = end_at c (c.off + 1 + ln);
  hops = c.hops;
}

-- One pass through the loop.
unfoldable pub turn : (List ℕ → Text) → List ℕ → Cursor → Turn
unfolding follow
turn decode buf c =
    let ln = byte_at buf c.off in
    if leb (length buf) c.off
    then finished c.labels c.after
    else if nat_eq ln 0
    then finished c.labels (end_at c (c.off + 1))
    else if is_pointer ln
    then follow buf ln c
    else going (read_label decode buf ln c)

-- The loop, for at most `fuel` passes.
unfoldable pub decode_loop : (List ℕ → Text) → List ℕ → ℕ → Cursor → Option (List Text × ℕ)
decode_loop decode buf ℕ.zero c = none
decode_loop decode buf (suc fuel) c = elim (turn decode buf c) [
  | finished labels stop ↦ some (labels, stop)
  | going c' ↦ decode_loop decode buf fuel c'
]

-- `".".join(labels)`
abbrev pub join_dots : List Text → Text
join_dots [] = []
join_dots (l ∷ []) = l
join_dots (l ∷ m ∷ ls) = l ++ codes "." ++ join_dots (m ∷ ls)

abbrev pub start_at : ℕ → Cursor
start_at off = record { off = off; labels = []; jumped = false; after = off; hops = 0 }

-- Enough passes for 20 jumps, with every byte read once between two of them.
abbrev pub passes : List ℕ → ℕ
passes buf = 20 * (length buf + 1) + (length buf + 1)

abbrev pub join_name : Option (List Text × ℕ) → Option (Text × ℕ)
join_name none = none
join_name (some (labels, stop)) = some (join_dots labels, stop)

-- `decode_name`
unfoldable pub decode_name : (List ℕ → Text) → List ℕ → ℕ → Option (Text × ℕ)
unfolding decode_loop turn
decode_name decode buf off = join_name (decode_loop decode buf (passes buf) (start_at off))
