-- ===== src/Tools/Mdns/RoundTrip.antt =====
-- A query that was built is parsed to its questions.
use mathlib.Core.List.{append_assoc, append-nil}
use homeassistant_2gig_gc.Prelude.{
  ℕ, ◌+◌, ◌/◌, ◌%◌, ◌<◌, ◌≡◌, refl, ap, sym, ◌∙◌, Bool, true, false, some, List, [], ◌∷◌, ◌++◌, map,
  Text, All, length, length-append, split, ltb, or_default, arith,
}
use homeassistant_2gig_gc.Python.Effects.{ok}
use homeassistant_2gig_gc.Tools.Mdns.{byte_at}
use homeassistant_2gig_gc.Tools.Mdns.Message.{
  Record, word_at, rstrip_dots, pack_word, encode_label, encode_labels, encode_name,
  encode_question, encode_questions, query_class, build_query, name_at, read_questions,
  parse_message,
}
use homeassistant_2gig_gc.Tools.Mdns.Names.{
  IsLabel, wire, join_dots-split, decode_name-wire, byte_at-append,
}

byte_at-at :
    (buf pre post : List ℕ) (b off : ℕ)
    → buf ≡ pre ++ b ∷ post
    → off ≡ length pre
    → byte_at buf off ≡ b
byte_at-at buf pre post b off whole here = rw (whole, here) (byte_at-append pre post b)

pack_word-fits : (n : ℕ) → n < 65536 → pack_word n ≡ ok (n / 256 ∷ n % 256 ∷ [])
unfolding pack_word
pack_word-fits n h = ground arith

query_class-fits : (encode : Text → List ℕ) (unicast : Bool) → query_class encode unicast < 65536
query_class-fits encode true = omega arith
query_class-fits encode false = omega arith

module _ (encode : Text → List ℕ) (ntop decode : List ℕ → Text) where
  abbrev pub labels_of : Text → List Text
  labels_of name = split b'.' (rstrip_dots name)

  -- The name's labels can be encoded and read back, and the type fits its field.
  pub record IsQuestion (q : Text × ℕ) : Type 0 where
    pub labels : All (IsLabel encode decode) (labels_of q.0)
    pub fits : q.1 < 65536

  encode_labels-wire :
      (names : List Text)
      → All (IsLabel encode decode) names
      → encode_labels encode names ≡ ok (wire encode decode names)
  unfolding encode_labels encode_label
  encode_labels-wire [] hs = refl
  encode_labels-wire (name ∷ names) hs =
      ground (arith, hs.0.few_bytes, encode_labels-wire names hs.1)

  -- The bytes of a question, and of the questions of a query.
  abbrev fields_of : ℕ → Bool → List ℕ
  fields_of qtype unicast =
      qtype / 256
      ∷ qtype % 256
      ∷ query_class encode unicast / 256
      ∷ query_class encode unicast % 256
      ∷ []

  abbrev question_bytes : Bool → Text × ℕ → List ℕ
  question_bytes unicast (name, qtype) =
      (wire encode decode (labels_of name) ++ 0 ∷ []) ++ fields_of qtype unicast

  abbrev body_of : Bool → List (Text × ℕ) → List ℕ
  body_of unicast [] = []
  body_of unicast (q ∷ qs) = question_bytes unicast q ++ body_of unicast qs

  encode_question-bytes :
      (unicast : Bool) (q : Text × ℕ)
      → IsQuestion q
      → encode_question encode unicast q ≡ ok (question_bytes unicast q)
  unfolding encode_question encode_name
  encode_question-bytes unicast (name, qtype) h =
      rw
        (
          encode_labels-wire (labels_of name) h.labels,
          pack_word-fits qtype h.fits,
          pack_word-fits (query_class encode unicast) (query_class-fits encode unicast),
        )
        (ap ok (
          append_assoc (wire encode decode (labels_of name) ++ 0 ∷ [])
            (qtype / 256 ∷ qtype % 256 ∷ [])
            (query_class encode unicast / 256 ∷ query_class encode unicast % 256 ∷ [])))

  encode_questions-body :
      (unicast : Bool) (qs : List (Text × ℕ))
      → All IsQuestion qs
      → encode_questions encode unicast qs ≡ ok (body_of unicast qs)
  unfolding encode_questions
  encode_questions-body unicast [] hs = refl
  encode_questions-body unicast (q ∷ qs) hs =
      rw (encode_question-bytes unicast q hs.0, encode_questions-body unicast qs hs.1) refl

  abbrev pub record_of : Text × ℕ → Record
  record_of (name, qtype) = record { name = rstrip_dots name; rtype = qtype; data_text = [] }

  -- The reader of one question: its name, its type, and enough bytes.
  abbrev ReadsOne : List ℕ → ℕ → Text × ℕ → ℕ → Type 0
  ReadsOne buf off (name, qtype) size =
      (stop : ℕ) × (name_at ntop decode buf off ≡ (rstrip_dots name, stop))
      × (word_at buf stop ≡ qtype)
      × (stop + 4 ≡ off + size)

  question-read :
      (buf pre post : List ℕ) (unicast : Bool) (q : Text × ℕ)
      → IsQuestion q
      → buf ≡ pre ++ (question_bytes unicast q ++ post)
      → ReadsOne buf (length pre) q (length (question_bytes unicast q))
  question-read buf pre post unicast (name, qtype) h whole =
      let w = wire encode decode (labels_of name) in
      let rest = fields_of qtype unicast ++ post in
      let bytes : (w ++ 0 ∷ []) ++ fields_of qtype unicast ++ post ≡ w ++ 0 ∷ rest =
        append_assoc (w ++ 0 ∷ []) (fields_of qtype unicast) post ∙ append_assoc w (0 ∷ []) rest in
      let named : buf ≡ pre ++ (w ++ 0 ∷ rest) = whole ∙ ap (λ l. pre ++ l) bytes in
      let front = pre ++ (w ++ 0 ∷ []) in
      let typed : buf ≡ front ++ rest =
        named
        ∙ ap (λ l. pre ++ l) (sym (append_assoc w (0 ∷ []) rest))
        ∙ sym (append_assoc pre (w ++ 0 ∷ []) rest) in
      let stop = length pre + length w + 1 in
      let high : byte_at buf stop ≡ qtype / 256 =
        byte_at-at buf front _ (qtype / 256) stop typed
          (omega (arith, length-append pre (w ++ 0 ∷ []), length-append w (0 ∷ []))) in
      let low : byte_at buf (stop + 1) ≡ qtype % 256 =
        byte_at-at buf (front ++ qtype / 256 ∷ []) _ (qtype % 256) (stop + 1)
          (typed ∙ sym (append_assoc front (qtype / 256 ∷ []) _))
          (omega (
            arith,
            length-append front (qtype / 256 ∷ []),
            length-append pre (w ++ 0 ∷ []),
            length-append w (0 ∷ []),
          )) in
      (
        stop,
        ap (λ b. name_at ntop decode b (length pre)) named
            ∙ ap (λ o. or_default o ([], length pre))
                (decode_name-wire encode decode (labels_of name) pre rest h.labels)
            ∙ ap (λ t. (t, stop)) (join_dots-split (rstrip_dots name)),
        omega (arith, high, low),
        omega (
          arith,
          length-append (w ++ 0 ∷ []) (fields_of qtype unicast),
          length-append w (0 ∷ []),
        ),
      )

  read_questions-body :
      (unicast : Bool) (qs : List (Text × ℕ)) (buf pre post : List ℕ)
      → All IsQuestion qs
      → buf ≡ pre ++ (body_of unicast qs ++ post)
      → read_questions ntop decode buf (length qs) (length pre)
        ≡ (map record_of qs, some (length pre + length (body_of unicast qs)))
  unfolding read_questions
  read_questions-body unicast [] buf pre post hs whole =
      let stop : length pre ≡ length pre + 0 = omega arith in ap (λ n. ([], some n)) stop
  read_questions-body unicast ((name, qtype) ∷ qs) buf pre post hs whole =
      let bytes = question_bytes unicast (name, qtype) in
      let rest = body_of unicast qs in
      let apart : buf ≡ pre ++ (bytes ++ (rest ++ post)) =
        whole ∙ ap (λ l. pre ++ l) (append_assoc bytes rest post) in
      let (stop, named, typed, further) =
        question-read buf pre (rest ++ post) unicast (name, qtype) hs.0 apart in
      let next : stop + 4 ≡ length (pre ++ bytes) =
        omega (arith, further, length-append pre bytes) in
      let later =
        read_questions-body unicast qs buf (pre ++ bytes) post hs.1
          (apart ∙ sym (append_assoc pre bytes (rest ++ post))) in
      let inside : ltb (length buf) (length (pre ++ bytes)) ≡ false = ground (
        arith,
        ap length apart,
        length-append pre (bytes ++ (rest ++ post)),
        length-append bytes (rest ++ post),
        length-append pre bytes,
      ) in
      let total : length (pre ++ bytes) + length rest ≡ length pre + length (bytes ++ rest) =
        omega (arith, length-append pre bytes, length-append bytes rest) in
      rw (named, next, later, inside, typed, total) refl

  -- A query of fewer than 65536 questions with good names and types is built without an error, and
  -- parsing it gives back the questions, each with its name less the dots at its end and its type, and
  -- no answers.
  pub parse_message-build_query :
      (qs : List (Text × ℕ)) (unicast : Bool)
      → All IsQuestion qs
      → length qs < 65536
      → (packet : List ℕ) × (build_query encode qs unicast ≡ ok packet)
        × (parse_message ntop decode packet ≡ (map record_of qs, []))
  unfolding build_query parse_message
  parse_message-build_query qs unicast hs few =
      let n = length qs in
      let header = 0 ∷ 0 ∷ 0 ∷ 0 ∷ n / 256 ∷ n % 256 ∷ 0 ∷ 0 ∷ 0 ∷ 0 ∷ 0 ∷ 0 ∷ [] in
      let packet = header ++ body_of unicast qs in
      let counted : word_at packet 4 ≡ n = omega arith in
      let questions =
        read_questions-body unicast qs packet header [] hs
          (ap (λ l. header ++ l) (sym (append-nil (body_of unicast qs)))) in
      (
        packet,
        rw (pack_word-fits n few, encode_questions-body unicast qs hs) refl,
        rw (counted, questions) (ground arith),
      )
