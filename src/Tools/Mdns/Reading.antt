-- ===== src/Tools/Mdns/Reading.antt =====
-- What is laid out in a packet by the format of DNS is what the probe reads.
use mathlib.Core.List.{append_assoc, append-nil}
use homeassistant_2gig_gc.Prelude.{
  Bool, false, ℕ, zero, suc, ◌+◌, ◌*◌, ◌%◌, ◌≤◌, ◌<◌, ◌≡◌, ap, refl, true, Option, none, some, List,
  [], ◌∷◌, ◌++◌, length, Text, arith, if◌then◌else◌,
}
use homeassistant_2gig_gc.Tools.Mdns.{
  Cursor, going, turn, follow, jump_to, end_at, decode_loop, decode_name, byte_at, slice, join_dots,
  join_name, start_at, passes,
}
use homeassistant_2gig_gc.Tools.Mdns.Halting.{is_some, decode_name-halts}
use homeassistant_2gig_gc.Tools.Mdns.Names.{turn-reads, turn-ends}
use homeassistant_2gig_gc.Tools.Mdns.Format.{Name}

turn-follows :
    (decode : List ℕ → Text) (buf : List ℕ) (c : Cursor) (high low : ℕ)
    → c.off + 1 < length buf
    → byte_at buf c.off ≡ 192 + high
    → high < 64
    → byte_at buf (c.off + 1) ≡ low
    → c.hops < 20
    → turn decode buf c ≡ going (jump_to c (high * 256 + low))
unfolding turn follow
turn-follows decode buf c high low inside e small e' few =
    let rest : (192 + high) % 64 ≡ high = omega arith in ground (arith, e, e', rest)

-- A later end of the name is not noted behind a jump.
end_at-twice :
    (jumped : Bool) (after early late : ℕ)
    → (if jumped then if jumped then after else early else late) ≡ (if jumped then after else late)
end_at-twice true after early late = refl
end_at-twice false after early late = refl

module _ (ntop : List ℕ → Text) (decode : List ℕ → Text) (buf : List ℕ) where
  loop-Name :
      (fuel : ℕ) {off jumps stop : ℕ} {labels : List Text}
      → Name ntop decode buf off labels jumps stop
      → (read : List Text) (jumped : Bool) (after hops : ℕ) (r : List Text × ℕ) → hops + jumps ≤ 20
      → decode_loop decode buf fuel
          (record { off = off; labels = read; jumped = jumped; after = after; hops = hops })
        ≡ some r
      → r ≡ (read ++ labels, if jumped then after else stop)
  unfolding decode_loop
  loop-Name zero d read jumped after hops r few got = cc
  loop-Name (suc fuel) (Name.root {off} inside z) read jumped after hops r few got =
      let c : Cursor = record {
        off = off;
        labels = read;
        jumped = jumped;
        after = after;
        hops = hops;
      } in
      let got' = rw (turn-ends decode buf c z inside, decode_loop) at got in
      cc (append-nil read, got')
  loop-Name (suc fuel) (Name.label {off} {n} {stop} b big small inside d) read jumped after hops r
        few got =
      let c : Cursor = record {
        off = off;
        labels = read;
        jumped = jumped;
        after = after;
        hops = hops;
      } in
      let got' = rw (turn-reads decode buf c n b (omega arith) big small, decode_loop) at got in
      let found =
        loop-Name fuel d (read ++ decode (slice buf (off + 1) n) ∷ []) jumped
          (end_at c (off + 1 + n)) hops r few got' in
      cc (
        found,
        append_assoc read (decode (slice buf (off + 1) n) ∷ []) _,
        end_at-twice jumped after (off + 1 + n) stop,
      )
  loop-Name (suc fuel) (Name.pointer {off} {high} {low} inside b small b' d) read jumped after hops
        r few got =
      let c : Cursor = record {
        off = off;
        labels = read;
        jumped = jumped;
        after = after;
        hops = hops;
      } in
      let got' =
        rw (turn-follows decode buf c high low inside b small b' (omega arith), decode_loop) at
          got in
      loop-Name fuel d read true (end_at c (off + 2)) (hops + 1) r (omega arith) got'

  -- A name that is laid out at `off`, through at most 20 compression pointers, is what `decode_name`
  -- returns: its labels joined by dots, and the place behind it.
  pub decode_name-Name :
      {off jumps stop : ℕ} {labels : List Text}
      → Name ntop decode buf off labels jumps stop
      → jumps ≤ 20
      → decode_name decode buf off ≡ some (join_dots labels, stop)
  unfolding decode_name
  decode_name-Name {off} {stop} {labels} d few =
      got (decode_loop decode buf (passes buf) (start_at off)) refl
        (decode_name-halts decode buf off)
    where
      got :
          (o : Option (List Text × ℕ))
          → decode_loop decode buf (passes buf) (start_at off) ≡ o
          → is_some (join_name o) ≡ true
          → join_name o ≡ some (join_dots labels, stop)
      got none e h = cc
      got (some r) e h =
          ap (λ r. join_name (some r)) (loop-Name (passes buf) d [] false off 0 r (omega arith) e)
