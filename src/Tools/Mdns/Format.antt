-- ===== src/Tools/Mdns/Format.antt =====
-- The wire format of DNS (RFC 1035), on which tools/mdns_probe.py stands: what is laid out in a packet,
-- whatever reads it.
use homeassistant_2gig_gc.Prelude.{
  ℕ, suc, ◌+◌, ◌*◌, ◌≤◌, ◌<◌, ◌≡◌, ◌≢◌, not, List, [], ◌∷◌, ◌++◌, map, filter, is_empty, length,
  take, Text, codes, decimal, All,
}
use homeassistant_2gig_gc.Tools.Mdns.{byte_at, slice, join_dots}
use homeassistant_2gig_gc.Tools.Mdns.Message.{Record, word_at, hex, join_blanks}

-- Character strings, each behind its length.
abbrev pub strings : List (List ℕ) → List ℕ
strings [] = []
strings (s ∷ ss) = length s ∷ (s ++ strings ss)

module _ (ntop : List ℕ → Text) (decode : List ℕ → Text) (buf : List ℕ) where
  -- `Name off labels jumps stop`: at `off` stands a name of these labels, which is read through
  -- that many compression pointers, and `stop` is the place behind it.
  pub data Name : ℕ → List Text → ℕ → ℕ → Type 0 where
    root : {off : ℕ} → off < length buf → byte_at buf off ≡ 0 → Name off [] 0 (off + 1)
    label :
        {off n jumps stop : ℕ} {labels : List Text}
        → byte_at buf off ≡ n
        → 1 ≤ n
        → n ≤ 63
        → off + 1 + n ≤ length buf
        → Name (off + 1 + n) labels jumps stop
        → Name off (decode (slice buf (off + 1) n) ∷ labels) jumps stop
    pointer :
        {off high low jumps stop : ℕ} {labels : List Text}
        → off + 1 < length buf
        → byte_at buf off ≡ 192 + high
        → high < 64
        → byte_at buf (off + 1) ≡ low
        → Name (high * 256 + low) labels jumps stop
        → Name off labels (suc jumps) (off + 2)

  -- `Content rtype off n text`: the n bytes at `off` are the data of a record of that type, and
  -- `text` is what is shown of them.
  pub data Content : ℕ → ℕ → ℕ → Text → Type 0 where
    address :
        {off a b c d : ℕ}
        → slice buf off 4 ≡ a ∷ b ∷ c ∷ d ∷ []
        → Content 1 off 4 (
            decimal a
            ++ codes "."
            ++ (decimal b ++ codes "." ++ (decimal c ++ codes "." ++ decimal d)))
    address6 :
        {off : ℕ} → length (slice buf off 16) ≡ 16 → Content 28 off 16 (ntop (slice buf off 16))
    domain :
        {off n jumps stop : ℕ} {labels : List Text}
        → Name off labels jumps stop
        → jumps ≤ 20
        → Content 12 off n (join_dots labels)
    service :
        {off n jumps stop port : ℕ} {labels : List Text}
        → 6 ≤ length (slice buf off n)
        → word_at (slice buf off n) 4 ≡ port
        → Name (off + 6) labels jumps stop
        → jumps ≤ 20
        → Content 33 off n (join_dots labels ++ codes ":" ++ decimal port)
    text :
        {off n : ℕ} (ss : List (List ℕ))
        → slice buf off n ≡ strings ss
        → Content 16 off n (join_blanks (filter (λ p. not (is_empty p)) (map decode ss)))
    other :
        {rtype off n : ℕ}
        → All (λ t. rtype ≢ t) (1 ∷ 12 ∷ 16 ∷ 28 ∷ 33 ∷ [])
        → Content rtype off n (take 48 (hex (slice buf off n)))

  -- Questions from one place to another.
  pub data Questions : ℕ → List Record → ℕ → Type 0 where
    asked : {off : ℕ} → Questions off [] off
    ask :
        {off jumps stop rtype behind : ℕ} {labels : List Text} {rest : List Record}
        → Name off labels jumps stop
        → jumps ≤ 20
        → stop + 4 ≤ length buf
        → word_at buf stop ≡ rtype
        → Questions (stop + 4) rest behind
        → Questions off
            (record { name = join_dots labels; rtype = rtype; data_text = [] } ∷ rest)
            behind

  -- Resource records from a place on: owner, type, class, time to live, length and data.
  pub data Records : ℕ → List Record → Type 0 where
    no_more : {off : ℕ} → Records off []
    more :
        {off jumps stop rtype n : ℕ} {labels : List Text} {shown : Text} {rest : List Record}
        → Name off labels jumps stop
        → jumps ≤ 20
        → word_at buf stop ≡ rtype
        → word_at buf (stop + 8) ≡ n
        → stop + 10 + n ≤ length buf
        → Content rtype (stop + 10) n shown
        → Records (stop + 10 + n) rest
        → Records off (record { name = join_dots labels; rtype = rtype; data_text = shown } ∷ rest)

  -- A message: its header counts the questions and the records of three sections.
  pub record IsMessage (questions answers : List Record) : Type 0 where
    pub header : 12 ≤ length buf
    pub behind : ℕ
    pub asks : Questions 12 questions behind
    pub holds : Records behind answers
    pub count : length questions ≡ word_at buf 4
    pub counts : length answers ≡ word_at buf 6 + word_at buf 8 + word_at buf 10
