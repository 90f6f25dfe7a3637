-- ===== src/Witnesses/Messages.antt =====
-- A response of a panel, with names that point back into the packet.
use homeassistant_2gig_gc.Prelude.{ℕ, ◌≡◌, refl, List, [], ◌∷◌, ◌++◌, Text, codes, decimal, arith}
use homeassistant_2gig_gc.Tools.Mdns.Message.{Record, parse_message}
use homeassistant_2gig_gc.Tools.Mdns.Format.{Name, Content, Questions, Records, IsMessage}
use homeassistant_2gig_gc.Tools.Mdns.Layout.{parse_message-IsMessage}

abbrev same : List ℕ → List ℕ
same bytes = bytes

-- Two records: who speaks HTTP, and the address of the one that was named.
abbrev response : List ℕ
response =
    0 ∷ 0 ∷ 132 ∷ 0 ∷ 0 ∷ 0 ∷ 0 ∷ 1 ∷ 0 ∷ 0 ∷ 0 ∷ 1 ∷ 5 ∷ b'_' ∷ b'h' ∷ b't' ∷ b't' ∷ b'p' ∷ 5
    ∷ b'l' ∷ b'o' ∷ b'c' ∷ b'a' ∷ b'l' ∷ 0 ∷ 0 ∷ 12 ∷ 0 ∷ 1 ∷ 0 ∷ 0 ∷ 0 ∷ 120 ∷ 0 ∷ 6 ∷ 3 ∷ b'g'
    ∷ b'c' ∷ b'3' ∷ 192 ∷ 12 ∷ 192 ∷ 35 ∷ 0 ∷ 1 ∷ 0 ∷ 1 ∷ 0 ∷ 0 ∷ 0 ∷ 120 ∷ 0 ∷ 4 ∷ 192 ∷ 168 ∷ 1
    ∷ 2 ∷ []

abbrev http_local : List Text
http_local = codes "_http" ∷ codes "local" ∷ []

http-Name : Name same same response 12 http_local 0 25
http-Name =
    Name.label refl (omega arith) (omega arith) (omega arith)
      (Name.label refl (omega arith) (omega arith) (omega arith) (Name.root (omega arith) refl))

panel-Name : Name same same response 35 (codes "gc3" ∷ http_local) 1 41
panel-Name =
    Name.label refl (omega arith) (omega arith) (omega arith)
      (Name.pointer {high = 0} (omega arith) refl (omega arith) refl http-Name)

again-Name : Name same same response 41 (codes "gc3" ∷ http_local) 2 43
again-Name = Name.pointer {high = 0} (omega arith) refl (omega arith) refl panel-Name

abbrev shown : List Record
shown =
    record { name = codes "_http.local"; rtype = 12; data_text = codes "gc3._http.local" }
    ∷ record {
      name = codes "gc3._http.local";
      rtype = 1;
      data_text =
          decimal 192
          ++ codes "."
          ++ (decimal 168 ++ codes "." ++ (decimal 1 ++ codes "." ++ decimal 2));
    }
    ∷ []

response-Records : Records same same response 12 shown
response-Records =
    Records.more http-Name (omega arith) refl refl (omega arith)
      (Content.domain panel-Name (omega arith))
      (Records.more again-Name (omega arith) refl refl (omega arith) (Content.address refl)
        Records.no_more)

response-IsMessage : IsMessage same same response [] shown
response-IsMessage = record {
  header = omega arith;
  behind = 12;
  asks = Questions.asked;
  holds = response-Records;
  count = refl;
  counts = refl;
}

parse_message-IsMessage_example : parse_message same same response ≡ ([], shown)
parse_message-IsMessage_example =
    parse_message-IsMessage same same response [] shown response-IsMessage
