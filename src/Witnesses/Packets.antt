-- ===== src/Witnesses/Packets.antt =====
-- The DNS codec at concrete packets.
use homeassistant_2gig_gc.Prelude.{
  count, length, ◌≤◌, text_Eq, ℕ, ◌≡◌, refl, true, false, some, List, [], ◌∷◌, ◌++◌, map, codes,
  split, arith, decimal, text_eq, strip_left,
}
use homeassistant_2gig_gc.Python.Effects.{ok}
use homeassistant_2gig_gc.Tools.Mdns.{decode_name}
use homeassistant_2gig_gc.Tools.Mdns.Message.{rstrip_dots, build_query, parse_message, reverse_name}
use homeassistant_2gig_gc.Tools.Mdns.Services.{not_installed}
use homeassistant_2gig_gc.Tools.Mdns.Phases.{
  Reception, packet, silent, unsent, phase_sniff, Options, Outside, mdns_probe, record_line,
}
use homeassistant_2gig_gc.Tools.Mdns.Sniffing.{heard, seen, phase_sniff-counts, mdns_probe-negative}
use homeassistant_2gig_gc.Tools.Mdns.RoundTrip.{IsQuestion, record_of, parse_message-build_query}
use homeassistant_2gig_gc.Tools.Mdns.Halting.{is_some, decode_name-halts}

-- A compression pointer to itself.
abbrev circle : List ℕ
circle = 192 ∷ 0 ∷ []

decode_name-halts_example : is_some (decode_name (λ bytes. bytes) circle 0) ≡ true
decode_name-halts_example = decode_name-halts (λ bytes. bytes) circle 0

-- A label, and a pointer back to a name before it.
abbrev compressed : List ℕ
compressed = 1 ∷ 97 ∷ 0 ∷ 1 ∷ 98 ∷ 192 ∷ 0 ∷ []

compressed-decoded : decode_name (λ bytes. bytes) compressed 3 ≡ some (codes "b.a", 7)
unfolding decode_name
compressed-decoded = refl

abbrev id_bytes : List ℕ → List ℕ
id_bytes bytes = bytes

-- One question, for the addresses of `_http.local.`.
abbrev asked : List (List ℕ × ℕ)
asked = (codes "_http.local.", 12) ∷ []

asked-IsQuestion : IsQuestion id_bytes id_bytes id_bytes (codes "_http.local.", 12)
unfolding split rstrip_dots
asked-IsQuestion = record {
  labels = (
    record { some_bytes = omega arith; few_bytes = omega arith; back = refl },
    (record { some_bytes = omega arith; few_bytes = omega arith; back = refl }, tt),
  );
  fits = omega arith;
}

parse_message-build_query_example :
    (packet : List ℕ) × (build_query id_bytes asked false ≡ ok packet)
    × (parse_message id_bytes id_bytes packet
        ≡ (map (record_of id_bytes id_bytes id_bytes) asked, []))
parse_message-build_query_example =
    parse_message-build_query id_bytes id_bytes id_bytes asked false (asked-IsQuestion, tt)
      (omega arith)

asked_bytes :
    build_query id_bytes asked true
    ≡ ok (
        0 ∷ 0 ∷ 0 ∷ 0 ∷ 0 ∷ 1 ∷ 0 ∷ 0 ∷ 0 ∷ 0 ∷ 0 ∷ 0 ∷ 5 ∷ codes "_http"
        ++ 5 ∷ codes "local"
        ++ 0 ∷ 0 ∷ 12 ∷ 128 ∷ 1 ∷ [])
unfolding build_query split
asked_bytes = refl

-- An answer with an address.
abbrev answered : List ℕ
answered =
    0 ∷ 0 ∷ 132 ∷ 0 ∷ 0 ∷ 0 ∷ 0 ∷ 1 ∷ 0 ∷ 0 ∷ 0 ∷ 0 ∷ 1 ∷ 97 ∷ 0 ∷ 0 ∷ 1 ∷ 0 ∷ 1 ∷ 0 ∷ 0 ∷ 0 ∷ 60
    ∷ 0 ∷ 4 ∷ 192 ∷ 168 ∷ 0 ∷ 7 ∷ []

answered_parsed :
    parse_message id_bytes id_bytes answered
    ≡ ([], record { name = codes "a"; rtype = 1; data_text = codes "192.168.0.7" } ∷ [])
unfolding parse_message decode_name decimal
answered_parsed = refl

-- Two packets from another host and one from the panel, and one behind the deadline.
abbrev panel_ip : List ℕ
panel_ip = codes "10.0.0.2"

abbrev receptions : List Reception
receptions =
    record { before = 0; arrival = packet answered (codes "10.0.0.9") }
    ∷ record { before = 100; arrival = silent }
    ∷ record { before = 1100; arrival = packet answered (codes "10.0.0.9") }
    ∷ record { before = 1200; arrival = packet answered panel_ip }
    ∷ record { before = 5000; arrival = packet answered panel_ip }
    ∷ []

phase_sniff-counts_example :
    let res = phase_sniff id_bytes id_bytes panel_ip true 5000 receptions in
    (res.total_packets ≡ length (heard 5000 receptions))
    × (res.panel_packets ≡ count panel_ip (heard 5000 receptions))
    × ((ip : List ℕ) → seen res ip ≡ count ip (heard 5000 receptions))
phase_sniff-counts_example = phase_sniff-counts id_bytes id_bytes panel_ip 5000 receptions

panel_records_sniffed :
    (phase_sniff id_bytes id_bytes panel_ip true 5000 receptions).panel_records
    ≡ codes "a A 192.168.0.7" ∷ []
unfolding phase_sniff text_eq parse_message decode_name record_line strip_left decimal
panel_records_sniffed = refl

-- A run in which nobody is the panel and nobody replies.
abbrev options : Options
options = record {
  panel_ip = codes "10.0.0.3";
  skip_sniff = false;
  skip_unicast = false;
  skip_enumerate = true;
  names = [];
}

abbrev outside : Outside
outside = record {
  opened = true;
  deadline = 5000;
  turns = receptions;
  net = λ n pkt. unsent;
  browsing = not_installed;
}

run_code : mdns_probe id_bytes id_bytes id_bytes options outside ≡ ok 1
unfolding mdns_probe build_query split reverse_name phase_sniff text_eq
run_code = refl

mdns_probe-negative_example :
    (1 ≤ length (heard 5000 receptions)) × (count (codes "10.0.0.3") (heard 5000 receptions) ≡ 0)
mdns_probe-negative_example =
    mdns_probe-negative id_bytes id_bytes id_bytes options outside run_code refl refl
