-- ===== src/Tools/Mdns/Layout.antt =====
-- A message that is laid out by the format of DNS is read as it is meant.
use homeassistant_2gig_gc.Prelude.{
  ℕ, zero, suc, ◌≤◌, ◌<◌, ◌≡◌, ap, sym, refl, some, List, [], ◌∷◌, map, length, length-append, Text,
  or_default, arith,
}
use homeassistant_2gig_gc.Tools.Mdns.{slice, join_dots}
use homeassistant_2gig_gc.Tools.Mdns.Message.{
  Record, name_at, txt_parts, decode_rdata, read_questions, read_answers, parse_message,
}
use homeassistant_2gig_gc.Tools.Mdns.Names.{take-append_length, drop-append_length}
use homeassistant_2gig_gc.Tools.Mdns.Format.{strings, Name, Content, Questions, Records, IsMessage}
use homeassistant_2gig_gc.Tools.Mdns.Reading.{decode_name-Name}

length-strings : (ss : List (List ℕ)) → length ss ≤ length (strings ss)
length-strings [] = omega arith
length-strings (s ∷ ss) = omega (arith, length-append s (strings ss), length-strings ss)

module _ (ntop : List ℕ → Text) (decode : List ℕ → Text) where
  txt_parts-strings :
      (fuel : ℕ) (ss : List (List ℕ))
      → length ss ≤ fuel
      → txt_parts ntop decode fuel (strings ss) ≡ map decode ss
  unfolding txt_parts
  txt_parts-strings zero [] h = refl
  txt_parts-strings (suc fuel) [] h = refl
  txt_parts-strings zero (s ∷ ss) h = absurd (omega arith)
  txt_parts-strings (suc fuel) (s ∷ ss) h =
      rw
        (
          take-append_length s (strings ss),
          drop-append_length s (strings ss),
          txt_parts-strings fuel ss (omega arith),
        )
        refl

  module _ (buf : List ℕ) where
    Name-inside :
        {off jumps stop : ℕ} {labels : List Text}
        → Name ntop decode buf off labels jumps stop
        → off < length buf
    Name-inside (Name.root inside e) = inside
    Name-inside (Name.label b big small inside d) = omega arith
    Name-inside (Name.pointer inside b small b' d) = omega arith

    name_at-Name :
        {off jumps stop : ℕ} {labels : List Text}
        → Name ntop decode buf off labels jumps stop
        → jumps ≤ 20
        → name_at ntop decode buf off ≡ (join_dots labels, stop)
    name_at-Name {off} d few =
        ap (λ o. or_default o ([], off)) (decode_name-Name ntop decode buf d few)

    decode_rdata-Content :
        {rtype off n : ℕ} {shown : Text}
        → Content ntop decode buf rtype off n shown
        → decode_rdata ntop decode buf off rtype (slice buf off n) ≡ shown
    unfolding decode_rdata
    decode_rdata-Content (Content.address e) = rw e refl
    decode_rdata-Content (Content.address6 {off} e) = rw e refl
    decode_rdata-Content (Content.domain d few) = ap (λ t. t.0) (name_at-Name d few)
    decode_rdata-Content (Content.service {off} {n} long e d few) =
        rw (name_at-Name d few, e) (ground (arith, long))
    decode_rdata-Content (Content.text ss e) =
        rw (e, txt_parts-strings (length (strings ss)) ss (length-strings ss)) refl
    decode_rdata-Content (Content.other (a, (b, (c, (d, (e, _)))))) = ground (arith, a, b, c, d, e)

    read_questions-Questions :
        {off behind : ℕ} {qs : List Record}
        → Questions ntop decode buf off qs behind
        → read_questions ntop decode buf (length qs) off ≡ (qs, some behind)
    unfolding read_questions
    read_questions-Questions Questions.asked = refl
    read_questions-Questions (Questions.ask {rest} d few inside e later) =
        rw (name_at-Name d few, read_questions-Questions later, e) (ground (arith, inside))

    read_answers-Records :
        {off : ℕ} {rs : List Record}
        → Records ntop decode buf off rs
        → read_answers ntop decode buf (length rs) off ≡ rs
    unfolding read_answers
    read_answers-Records Records.no_more = refl
    read_answers-Records (Records.more d few e e' inside content later) =
        rw (name_at-Name d few, e', read_answers-Records later, e, decode_rdata-Content content)
          (ground (arith, inside, Name-inside d))

    -- A packet that is a message by the format of DNS, each of its names through at most 20 compression
    -- pointers, is read as these questions, and the records of its three sections as answers.
    pub parse_message-IsMessage :
        (qs rs : List Record)
        → IsMessage ntop decode buf qs rs
        → parse_message ntop decode buf ≡ (qs, rs)
    unfolding parse_message
    parse_message-IsMessage qs rs h =
        let asked = read_questions-Questions h.asks in
        let held = read_answers-Records h.holds in
        rw (sym h.count, asked, sym h.counts, held) (ground (arith, h.header))
