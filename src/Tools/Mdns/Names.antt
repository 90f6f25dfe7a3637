-- ===== src/Tools/Mdns/Names.antt =====
-- A name that was encoded is read back from any place in a packet.
use mathlib.Core.List.{append_assoc, append-nil}
use homeassistant_2gig_gc.Prelude.{
  ℕ, zero, suc, ◌+◌, ◌≤◌, ◌<◌, ◌≡◌, refl, ap, sym, ◌∙◌, inl, inr, false, some, List, [], ◌∷◌, ◌++◌,
  Text, All, split, cons_char, length, length-append, take, drop, nat_eq, arith, Bool-cases,
}
use homeassistant_2gig_gc.Tools.Mdns.{
  Cursor, finished, going, turn, decode_loop, decode_name, passes, byte_at, slice, join_name,
  join_dots, end_at, read_label,
}

split-cons : (c : ℕ) (s : Text) → (part : Text) × (parts : List Text) × (split c s ≡ part ∷ parts)
unfolding split
split-cons c [] = ([], [], refl)
split-cons c (d ∷ s) =
    let (part, parts, e) = split-cons c s in
    elim (Bool-cases (nat_eq d c)) [
      | inl here ↦ ([], part ∷ parts, rw (here, e) refl)
      | inr later ↦ (d ∷ part, parts, rw (later, e) refl)
    ]

join_dots-cons_char :
    (d : ℕ) (parts : List Text) → join_dots (cons_char d parts) ≡ d ∷ join_dots parts
join_dots-cons_char d [] = refl
join_dots-cons_char d (part ∷ []) = refl
join_dots-cons_char d (part ∷ next ∷ parts) = refl

-- To split at dots and join by dots changes nothing.
pub join_dots-split : (s : Text) → join_dots (split b'.' s) ≡ s
unfolding split
join_dots-split [] = refl
join_dots-split (d ∷ s) = elim (Bool-cases (nat_eq d b'.')) [
  | inl here ↦
      let (part, parts, e) = split-cons b'.' s in
      let dot : d ≡ b'.' = ground arith in rw (here, e) (cc (dot, join_dots-split s, e))
  | inr later ↦
      rw later (join_dots-cons_char d (split b'.' s) ∙ ap (λ l. d ∷ l) (join_dots-split s))
]

pub byte_at-append : (pre post : List ℕ) (b : ℕ) → byte_at (pre ++ b ∷ post) (length pre) ≡ b
byte_at-append [] post b = refl
byte_at-append (x ∷ pre) post b = byte_at-append pre post b

pub drop-append_length : (pre post : List ℕ) → drop (length pre) (pre ++ post) ≡ post
drop-append_length [] post = refl
drop-append_length (x ∷ pre) post = drop-append_length pre post

pub take-append_length : (xs post : List ℕ) → take (length xs) (xs ++ post) ≡ xs
take-append_length [] post = refl
take-append_length (x ∷ xs) post = ap (λ l. x ∷ l) (take-append_length xs post)

drop-past_suc : (pre post : List ℕ) (b : ℕ) → drop (suc (length pre)) (pre ++ b ∷ post) ≡ post
drop-past_suc [] post b = refl
drop-past_suc (x ∷ pre) post b = drop-past_suc pre post b

drop-past : (pre post : List ℕ) (b : ℕ) → drop (length pre + 1) (pre ++ b ∷ post) ≡ post
drop-past pre post b =
    let one_more : length pre + 1 ≡ suc (length pre) = omega arith in
    ap (λ n. drop n (pre ++ b ∷ post)) one_more ∙ drop-past_suc pre post b

pub turn-reads :
    (decode : List ℕ → Text) (buf : List ℕ) (c : Cursor) (n : ℕ)
    → byte_at buf c.off ≡ n
    → c.off < length buf
    → 1 ≤ n
    → n ≤ 63
    → turn decode buf c ≡ going (read_label decode buf n c)
unfolding turn
turn-reads decode buf c n e inside big few = ground (arith, e)

pub turn-ends :
    (decode : List ℕ → Text) (buf : List ℕ) (c : Cursor)
    → byte_at buf c.off ≡ 0
    → c.off < length buf
    → turn decode buf c ≡ finished c.labels (end_at c (c.off + 1))
unfolding turn
turn-ends decode buf c e inside = ground (arith, e)

module _ (encode : Text → List ℕ) (decode : List ℕ → Text) where
  -- The bytes of a label that can be encoded and read back.
  pub record IsLabel (label : Text) : Type 0 where
    pub some_bytes : 1 ≤ length (encode label)
    pub few_bytes : length (encode label) ≤ 63
    pub back : decode (encode label) ≡ label

  abbrev pub wire : List Text → List ℕ
  wire [] = []
  wire (label ∷ labels) = length (encode label) ∷ (encode label ++ wire labels)

  -- A cursor that has not jumped.
  abbrev plain : List ℕ → List Text → Cursor
  plain pre labels = record {
    off = length pre;
    labels = labels;
    jumped = false;
    after = length pre;
    hops = 0;
  }

  -- One pass of the reader on a label.
  turn-label :
      (buf pre post : List ℕ) (label : Text) (labels : List Text)
      → IsLabel label
      → buf ≡ pre ++ length (encode label) ∷ (encode label ++ post)
      → turn decode buf (plain pre labels)
        ≡ going (plain (pre ++ length (encode label) ∷ encode label) (labels ++ label ∷ []))
  turn-label buf pre post label labels h whole =
      let raw = encode label in
      let inside : length pre < length buf =
        omega (arith, ap length whole, length-append pre (length raw ∷ (raw ++ post))) in
      let read : slice buf (length pre + 1) (length raw) ≡ raw =
        ap (λ b. take (length raw) (drop (length pre + 1) b)) whole
        ∙ ap (take (length raw)) (drop-past pre (raw ++ post) (length raw))
        ∙ take-append_length raw post in
      let stop : length pre + 1 + length raw ≡ length (pre ++ length raw ∷ raw) =
        omega (arith, length-append pre (length raw ∷ raw)) in
      turn-reads decode buf (plain pre labels) (length raw)
        (ap (λ b. byte_at b (length pre)) whole ∙ byte_at-append pre (raw ++ post) (length raw))
        inside h.some_bytes h.few_bytes
      ∙ rw (read, h.back, stop) refl

  -- The reader on the labels and the zero byte behind them.
  Reads : ℕ → List Text → Type 0
  Reads fuel names =
      (buf pre post : List ℕ) (labels : List Text)
      → buf ≡ pre ++ (wire names ++ 0 ∷ post)
      → decode_loop decode buf fuel (plain pre labels)
        ≡ some (labels ++ names, length pre + length (wire names) + 1)

  decode_loop-nil : (fuel : ℕ) → Reads (suc fuel) []
  unfolding decode_loop Reads
  decode_loop-nil fuel buf pre post labels whole =
      let inside : length pre < length buf =
        omega (arith, ap length whole, length-append pre (0 ∷ post)) in
      let zero_byte : byte_at buf (length pre) ≡ 0 =
        ap (λ b. byte_at b (length pre)) whole ∙ byte_at-append pre post 0 in
      let stop : length pre + 1 ≡ length pre + 0 + 1 = omega arith in
      rw (turn-ends decode buf (plain pre labels) zero_byte inside, decode_loop)
        (cc (append-nil labels, stop))

  decode_loop-cons :
      (fuel : ℕ) (name : Text) (names : List Text)
      → IsLabel name
      → Reads fuel names
      → Reads (suc fuel) (name ∷ names)
  unfolding decode_loop Reads
  decode_loop-cons fuel name names h ih buf pre post labels whole =
      let raw = encode name in
      let rest = wire names ++ 0 ∷ post in
      let apart : pre ++ (wire (name ∷ names) ++ 0 ∷ post) ≡ pre ++ length raw ∷ (raw ++ rest) =
        ap (λ l. pre ++ length raw ∷ l) (append_assoc raw (wire names) (0 ∷ post)) in
      let regroup : pre ++ length raw ∷ (raw ++ rest) ≡ (pre ++ length raw ∷ raw) ++ rest =
        sym (append_assoc pre (length raw ∷ raw) rest) in
      let stop : length (pre ++ length raw ∷ raw) + length (wire names) + 1
          ≡ length pre + length (wire (name ∷ names)) + 1 =
        omega (arith, length-append pre (length raw ∷ raw), length-append raw (wire names)) in
      rw (turn-label buf pre rest name labels h (whole ∙ apart), decode_loop)
        (ih buf (pre ++ length raw ∷ raw) post (labels ++ name ∷ []) (whole ∙ apart ∙ regroup)
          ∙ cc (append_assoc labels (name ∷ []) names, stop))

  decode_loop-Reads :
      (fuel : ℕ) (names : List Text) → length names < fuel → All IsLabel names → Reads fuel names
  decode_loop-Reads zero names enough hs = absurd (omega arith)
  decode_loop-Reads (suc fuel) [] enough hs = decode_loop-nil fuel
  decode_loop-Reads (suc fuel) (name ∷ names) enough (h, hs) =
      decode_loop-cons fuel name names h (decode_loop-Reads fuel names (omega arith) hs)

  length-wire : (names : List Text) → length names ≤ length (wire names)
  length-wire [] = omega arith
  length-wire (name ∷ names) =
      omega (arith, length-append (encode name) (wire names), length-wire names)

  -- Encoded labels are read back from any place in a packet, up to the zero byte behind them.
  pub decode_name-wire :
      (names : List Text) (pre post : List ℕ)
      → All IsLabel names
      → decode_name decode (pre ++ (wire names ++ 0 ∷ post)) (length pre)
        ≡ some (join_dots names, length pre + length (wire names) + 1)
  unfolding decode_name Reads
  decode_name-wire names pre post hs =
      let buf = pre ++ (wire names ++ 0 ∷ post) in
      ap join_name (
        decode_loop-Reads (passes buf) names
          (omega (
            arith,
            length-wire names,
            length-append pre (wire names ++ 0 ∷ post),
            length-append (wire names) (0 ∷ post),
          ))
          hs buf pre post [] refl)
