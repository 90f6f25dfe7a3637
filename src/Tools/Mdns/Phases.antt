-- ===== src/Tools/Mdns/Phases.antt =====
-- tools/mdns_probe.py: the sniffing phase, the querying phase and the exit code. What the sockets and
-- the clock give is an argument. Times are in milliseconds.
use homeassistant_2gig_gc.Prelude.{
  ℕ, ◌+◌, Bool, true, not, ◌||◌, List, [], ◌∷◌, ◌++◌, map, reverse, Text, codes, text_Eq, ◌==◌,
  Dict, get, put, or_default, is_empty, strip_left, decimal, nat_eq, leb, if◌then◌else◌,
}
use homeassistant_2gig_gc.Python.Effects.{Result, ok, raised, bind, system_exit}
use homeassistant_2gig_gc.Tools.Mdns.Services.{Browsing, phase_enumerate}
use homeassistant_2gig_gc.Tools.Mdns.Message.{Record, build_query, parse_message, reverse_name}

-- `TYPES.get(t, str(t))`
unfoldable pub type_text : ℕ → Text
type_text t =
    if nat_eq t 1
    then codes "A"
    else if nat_eq t 12
    then codes "PTR"
    else if nat_eq t 16
    then codes "TXT"
    else if nat_eq t 28
    then codes "AAAA"
    else if nat_eq t 33
    then codes "SRV"
    else if nat_eq t 47
    then codes "NSEC"
    else decimal t

-- `str(record)`
unfoldable pub record_line : Record → Text
unfolding type_text
record_line r =
    reverse
      (strip_left (reverse (r.name ++ codes " " ++ type_text r.rtype ++ codes " " ++ r.data_text)))

unfoldable pub question_line : Record → Text
unfolding type_text
question_line q = codes "question " ++ q.name ++ codes " " ++ type_text q.rtype

pub record SniffResult : Type 0 where
  pub panel_packets : ℕ
  pub total_packets : ℕ
  pub sources : Dict Text ℕ
  pub panel_records : List Text

-- `SniffResult()`
abbrev pub new_sniff : SniffResult
new_sniff = record { panel_packets = 0; total_packets = 0; sources = []; panel_records = [] }

-- What one `recvfrom` gives: a timeout, another `OSError`, or a packet with the address of its sender.
pub data Arrival : Type 0 where
  silent failed : Arrival
  packet : List ℕ → Text → Arrival

-- One pass through a loop that receives: the time at its test, and its `recvfrom`.
pub record Reception : Type 0 where
  pub before : ℕ
  pub arrival : Arrival

-- `sources[src] += 1`
unfoldable pub count_source : Dict Text ℕ → Text → Dict Text ℕ
count_source sources src = put sources src (or_default (get sources src) 0 + 1)

-- What came of sending one query: nothing, as it could not be sent, or the deadline for replies and the
-- passes of the loop.
pub data Sending : Type 0 where
  unsent : Sending
  sent : ℕ → List Reception → Sending

-- The command-line arguments that steer the phases. The address of the panel is empty where neither the
-- argument nor the variable gives one.
pub record Options : Type 0 where
  pub panel_ip : Text
  pub skip_sniff : Bool
  pub skip_unicast : Bool
  pub skip_enumerate : Bool
  pub names : List Text

abbrev pub default_names : List Text
default_names =
    codes "gc3.local" ∷ codes "2gig.local" ∷ codes "panel.local" ∷ codes "gc3panel.local" ∷ []

abbrev pub names_or_default : List Text → List Text
names_or_default [] = default_names
names_or_default (n ∷ names) = n ∷ names

-- The names and types that the querying phase asks for.
unfoldable pub questions_for : Text → List Text → List (Text × ℕ)
questions_for panel_ip extra =
    (codes "_services._dns-sd._udp.local", 12)
    ∷ (reverse_name panel_ip, 12)
    ∷ map (λ n. (n, 1)) extra

-- The exit code, by what the phases found.
unfoldable pub exit_code : Bool → SniffResult → List Record → List Text → ℕ
exit_code skip_sniff sniff unicast enumerated =
    let capture_ok = not (nat_eq sniff.total_packets 0) || skip_sniff in
    if not (nat_eq sniff.panel_packets 0) || not (is_empty unicast) || not (is_empty enumerated)
    then 0
    else if capture_ok
    then 1
    else 2

module _ (ntop decode : List ℕ → Text) (panel_ip : Text) where
  -- A packet from the panel.
  unfoldable pub note_panel : List ℕ → SniffResult → SniffResult
  note_panel bytes res =
      let (questions, answers) = parse_message ntop decode bytes in
      record res {
        panel_packets = res.panel_packets + 1;
        panel_records = res.panel_records ++ map question_line questions ++ map record_line answers;
      }

  -- A packet.
  unfoldable pub note_packet : List ℕ → Text → SniffResult → SniffResult
  unfolding note_panel count_source
  note_packet bytes src res =
      let counted = record res {
        total_packets = res.total_packets + 1;
        sources = count_source res.sources src;
      } in
      if src == panel_ip then note_panel bytes counted else counted

  abbrev pub on_arrival : Arrival → SniffResult → (SniffResult → SniffResult) → SniffResult
  on_arrival silent res go = go res
  on_arrival failed res go = res
  on_arrival (packet bytes src) res go = go (note_packet bytes src res)

  -- The receive loop of `phase_sniff`.
  unfoldable pub sniff_loop : ℕ → List Reception → SniffResult → SniffResult
  unfolding note_packet
  sniff_loop deadline [] res = res
  sniff_loop deadline (t ∷ turns) res =
      if leb deadline t.before
      then res
      else on_arrival t.arrival res (λ r. sniff_loop deadline turns r)

  -- `phase_sniff`, which leaves the counts empty where the socket cannot be opened.
  unfoldable pub phase_sniff : Bool → ℕ → List Reception → SniffResult
  unfolding sniff_loop
  phase_sniff opened deadline turns =
      if opened then sniff_loop deadline turns new_sniff else new_sniff

  abbrev pub reply_in : Arrival → List Record → List Record
  reply_in (packet bytes src) rest =
      if src == panel_ip then (parse_message ntop decode bytes).1 ++ rest else rest
  reply_in _ rest = []

  -- The receive loop of `phase_unicast`.
  unfoldable pub replies : ℕ → List Reception → List Record
  replies deadline [] = []
  replies deadline (t ∷ turns) =
      let rest = replies deadline turns in
      if leb deadline t.before then [] else reply_in t.arrival rest

  abbrev pub replies_of : Sending → List Record
  replies_of unsent = []
  replies_of (sent deadline turns) = replies deadline turns

module _ (encode : Text → List ℕ) (ntop decode : List ℕ → Text) (panel_ip : Text) where
  -- The loop of `phase_unicast` over the questions: `net n` is the network at the question that `n` were before.
  unfoldable pub ask_all : (ℕ → List ℕ → Sending) → ℕ → List (Text × ℕ) → Result (List Record)
  unfolding replies
  ask_all net n [] = ok []
  ask_all net n (q ∷ qs) = bind (build_query encode (q ∷ []) true) λ pkt.
      bind (ask_all net (n + 1) qs)
        λ found. ok (replies_of ntop decode panel_ip (net n pkt) ++ found)

  -- `phase_unicast`
  unfoldable pub phase_unicast : (ℕ → List ℕ → Sending) → List Text → Result (List Record)
  unfolding ask_all questions_for
  phase_unicast net extra = ask_all net 0 (questions_for panel_ip extra)

-- What the outside gives to a run: the sniffing socket, the network, and what python-zeroconf reports.
pub record Outside : Type 0 where
  pub opened : Bool
  pub deadline : ℕ
  pub turns : List Reception
  pub net : ℕ → List ℕ → Sending
  pub browsing : Browsing

module _ (encode : Text → List ℕ) (ntop decode : List ℕ → Text) (opts : Options) (o : Outside) where
  abbrev pub sniffed : SniffResult
  sniffed =
      if opts.skip_sniff
      then new_sniff
      else phase_sniff ntop decode opts.panel_ip o.opened o.deadline o.turns

  -- The phases, and the exit code
  abbrev pub run_phases : Result ℕ
  run_phases =
      bind
        (if opts.skip_unicast
          then ok []
          else phase_unicast encode ntop decode opts.panel_ip o.net (names_or_default opts.names))
        λ unicast. ok (
          exit_code opts.skip_sniff sniffed unicast
            (if opts.skip_enumerate then [] else phase_enumerate opts.panel_ip o.browsing))

  -- `main`: the exit code; argparse exits with 2 where the address is missing.
  unfoldable pub mdns_probe : Result ℕ
  unfolding exit_code phase_unicast
  mdns_probe = if is_empty opts.panel_ip then raised (system_exit 2) else run_phases
