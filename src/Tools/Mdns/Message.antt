-- ===== src/Tools/Mdns/Message.antt =====
-- tools/mdns_probe.py: the rest of the DNS codec. `encode` and `decode` stand for Python's UTF-8 codec, the
-- latter with replacement characters, and `ntop` for `socket.inet_ntop` on an IPv6 address.
use homeassistant_2gig_gc.Prelude.{
  ℕ, zero, suc, ◌+◌, ◌-◌, ◌*◌, ◌/◌, ◌%◌, Bool, not, ◌&&◌, Option, none, some, List, [], ◌∷◌, ◌++◌,
  map, reverse, Text, codes, split, filter, is_empty, length, take, drop, decimal, nat_eq, leb, ltb,
  or_default, if◌then◌else◌,
}
use homeassistant_2gig_gc.Python.Effects.{Result, ok, raised, bind, value_error, struct_error}
use homeassistant_2gig_gc.Tools.Mdns.{byte_at, slice, join_dots, decode_name}

infixl 5 ◌>>=◌
abbrev ◌>>=◌ {ℓ κ} : {A : Type ℓ} {B : Type κ} → Result A → (A → Result B) → Result B
◌>>=◌ = bind

abbrev pub drop_dots : Text → Text
drop_dots [] = []
drop_dots (c ∷ s) = let rest = drop_dots s in if nat_eq c b'.' then rest else c ∷ s

-- `name.rstrip(".")`
unfoldable pub rstrip_dots : Text → Text
rstrip_dots name = reverse (drop_dots (reverse name))

-- `struct.pack("!H", n)`
unfoldable pub pack_word : ℕ → Result (List ℕ)
pack_word n = if ltb n 65536 then ok (n / 256 ∷ n % 256 ∷ []) else raised struct_error

module _ (encode : Text → List ℕ) where
  -- One pass through the loop of `encode_name`.
  unfoldable pub encode_label : Text → Result (List ℕ)
  encode_label label =
      let raw = encode label in
      if ltb 63 (length raw) then raised value_error else ok (length raw ∷ raw)

  unfoldable pub encode_labels : List Text → Result (List ℕ)
  unfolding encode_label
  encode_labels [] = ok []
  encode_labels (label ∷ labels) = do
    first ← encode_label label
    rest ← encode_labels labels
    ok (first ++ rest)

  -- `encode_name`
  unfoldable pub encode_name : Text → Result (List ℕ)
  unfolding encode_labels rstrip_dots
  encode_name name = do out ← encode_labels (split b'.' (rstrip_dots name)); ok (out ++ 0 ∷ [])

  -- `0x0001 | (0x8000 if unicast else 0)`
  abbrev pub query_class : Bool → ℕ
  query_class unicast = if unicast then 0x8001 else 1

  -- One question of a query.
  unfoldable pub encode_question : Bool → Text × ℕ → Result (List ℕ)
  unfolding encode_name pack_word
  encode_question unicast (name, qtype) = do
    wire ← encode_name name
    kind ← pack_word qtype
    class ← pack_word (query_class unicast)
    ok (wire ++ kind ++ class)

  unfoldable pub encode_questions : Bool → List (Text × ℕ) → Result (List ℕ)
  unfolding encode_question
  encode_questions unicast [] = ok []
  encode_questions unicast (q ∷ qs) = do
    first ← encode_question unicast q
    rest ← encode_questions unicast qs
    ok (first ++ rest)

  -- `build_query`
  unfoldable pub build_query : List (Text × ℕ) → Bool → Result (List ℕ)
  unfolding encode_questions
  build_query questions unicast = do
    count ← pack_word (length questions)
    body ← encode_questions unicast questions
    ok (0 ∷ 0 ∷ 0 ∷ 0 ∷ count ++ 0 ∷ 0 ∷ 0 ∷ 0 ∷ 0 ∷ 0 ∷ body)

-- `Record`
pub record Record : Type 0 where
  pub name : Text
  pub rtype : ℕ
  pub data_text : Text

-- `struct.unpack("!H", buf[off : off + 2])`
abbrev pub word_at : List ℕ → ℕ → ℕ
word_at buf off = byte_at buf off * 256 + byte_at buf (off + 1)

-- One hexadecimal digit.
abbrev pub hex_digit : ℕ → ℕ
hex_digit d = if ltb d 10 then d + b'0' else d - 10 + b'a'

-- `b.hex()`
abbrev pub hex : List ℕ → Text
hex [] = []
hex (b ∷ bs) = hex_digit (b / 16) ∷ hex_digit (b % 16) ∷ hex bs

-- `" ".join(p for p in parts if p)`
abbrev pub join_blanks : List Text → Text
join_blanks [] = []
join_blanks (p ∷ []) = p
join_blanks (p ∷ q ∷ ps) = p ++ codes " " ++ join_blanks (q ∷ ps)

module _ (ntop : List ℕ → Text) (decode : List ℕ → Text) where
  -- `decode_name`, which has a value for every packet.
  abbrev pub name_at : List ℕ → ℕ → Text × ℕ
  name_at buf off = or_default (decode_name decode buf off) ([], off)

  -- The strings of a TXT record, at most one for each byte.
  unfoldable pub txt_parts : ℕ → List ℕ → List Text
  txt_parts zero rdata = []
  txt_parts (suc fuel) [] = []
  txt_parts (suc fuel) (ln ∷ rdata) = decode (take ln rdata) ∷ txt_parts fuel (drop ln rdata)

  -- `decode_rdata`; nothing in its `try` raises.
  unfoldable pub decode_rdata : List ℕ → ℕ → ℕ → List ℕ → Text
  unfolding txt_parts
  decode_rdata buf off rtype rdata =
      if nat_eq rtype 1 && nat_eq (length rdata) 4
      then join_dots (map decimal rdata)
      else if nat_eq rtype 28 && nat_eq (length rdata) 16
      then ntop rdata
      else if nat_eq rtype 12
      then (name_at buf off).0
      else if nat_eq rtype 33 && leb 6 (length rdata)
      then (name_at buf (off + 6)).0 ++ codes ":" ++ decimal (word_at rdata 4)
      else if nat_eq rtype 16
      then join_blanks (filter (λ p. not (is_empty p)) (txt_parts (length rdata) rdata))
      else take 48 (hex rdata)

  -- The loop over the questions: what it read, and the offset behind, or nothing where the packet
  -- ended in a question.
  unfoldable pub read_questions : List ℕ → ℕ → ℕ → List Record × Option ℕ
  read_questions buf zero off = ([], some off)
  read_questions buf (suc n) off =
      let (name, stop) = name_at buf off in
      let (later, end_off) = read_questions buf n (stop + 4) in
      if ltb (length buf) (stop + 4)
      then ([], none)
      else (record { name = name; rtype = word_at buf stop; data_text = [] } ∷ later, end_off)

  -- The loop over the answers.
  unfoldable pub read_answers : List ℕ → ℕ → ℕ → List Record
  unfolding decode_rdata
  read_answers buf zero off = []
  read_answers buf (suc n) off =
      let (name, stop) = name_at buf off in
      let rdlen = word_at buf (stop + 8) in
      let rest = read_answers buf n (stop + 10 + rdlen) in
      if leb (length buf) off
      then []
      else if ltb (length buf) (stop + 10)
      then []
      else record {
        name = name;
        rtype = word_at buf stop;
        data_text = decode_rdata buf (stop + 10) (word_at buf stop) (slice buf (stop + 10) rdlen);
      }
        ∷ rest

  abbrev pub with_answers : List ℕ → List Record × Option ℕ → List Record × List Record
  with_answers buf (questions, none) = (questions, [])
  with_answers buf (questions, some off) =
      (questions, read_answers buf (word_at buf 6 + word_at buf 8 + word_at buf 10) off)

  -- `parse_message`
  unfoldable pub parse_message : List ℕ → List Record × List Record
  unfolding read_questions read_answers
  parse_message buf =
      if ltb (length buf) 12
      then ([], [])
      else with_answers buf (read_questions buf (word_at buf 4) 12)

-- `reverse_name`
unfoldable pub reverse_name : Text → Text
reverse_name ip = join_dots (reverse (split b'.' ip)) ++ codes ".in-addr.arpa"
