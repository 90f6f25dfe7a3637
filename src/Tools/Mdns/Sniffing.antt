-- ===== src/Tools/Mdns/Sniffing.antt =====
-- What the sniffing phase counts, and when a run ends as a negative.
use homeassistant_2gig_gc.Prelude.{
  ℕ, ◌+◌, ◌≤◌, ◌≡◌, refl, sym, ◌∙◌, inl, inr, Bool, true, false, List, [], ◌∷◌, Text, text_Eq, ◌==◌,
  count, is_empty, Dict, get, get-put, or_default, length, leb, Bool-cases, arith, if◌then◌else◌,
}
use homeassistant_2gig_gc.Python.Effects.{Result, ok, raised, bind, system_exit, ok-injective}
use homeassistant_2gig_gc.Tools.Mdns.Message.{Record}
use homeassistant_2gig_gc.Tools.Mdns.Phases.{
  SniffResult, new_sniff, Arrival, silent, failed, packet, Reception, count_source, note_packet,
  note_panel, on_arrival, sniff_loop, phase_sniff, exit_code, Options, Outside, sniffed, mdns_probe,
}

abbrev source_in : Arrival → List Text → List Text
source_in silent rest = rest
source_in failed rest = []
source_in (packet bytes src) rest = src ∷ rest

-- The senders of the packets that came before the deadline and before an error of the socket.
abbrev pub heard : ℕ → List Reception → List Text
heard deadline [] = []
heard deadline (t ∷ turns) =
    let rest = heard deadline turns in
    if leb deadline t.before then [] else source_in t.arrival rest

-- The count that `sources` keeps for an address.
abbrev pub seen : SniffResult → Text → ℕ
seen res ip = or_default (get res.sources ip) 0

seen-count_source :
    (sources : Dict Text ℕ) (src ip : Text)
    → or_default (get (count_source sources src) ip) 0
      ≡ or_default (get sources ip) 0 + count ip (src ∷ [])
unfolding count_source
seen-count_source sources src ip = elim (Bool-cases (src == ip)) [
  | inl same ↦
      let e : src ≡ ip = ground (arith, text_Eq.beq_iff src ip) in
      rw (get-put sources src ip (or_default (get sources src) 0 + 1), same, e) refl
  | inr other ↦
      rw (get-put sources src ip (or_default (get sources src) 0 + 1), other) (omega arith)
]

module _ (ntop decode : List ℕ → Text) (panel_ip : Text) where
  -- The counts have grown by the packets of these senders.
  record IsTally (before : SniffResult) (senders : List Text) (after : SniffResult) : Type 0 where
    total : after.total_packets ≡ before.total_packets + length senders
    panel : after.panel_packets ≡ before.panel_packets + count panel_ip senders
    by_source : (ip : Text) → seen after ip ≡ seen before ip + count ip senders

  IsTally-none : (res : SniffResult) → IsTally res [] res
  IsTally-none res = record {
    total = omega arith;
    panel = omega arith;
    by_source = λ ip. omega arith;
  }

  note_packet-IsTally :
      (bytes : List ℕ) (src : Text) (res : SniffResult)
      → IsTally res (src ∷ []) (note_packet ntop decode panel_ip bytes src res)
  unfolding note_packet note_panel
  note_packet-IsTally bytes src res = elim (Bool-cases (src == panel_ip)) [
    | inl own ↦ rw own (record {
      total = omega arith;
      panel = rw own (omega arith);
      by_source = λ ip. seen-count_source res.sources src ip;
    })
    | inr other ↦ rw other (record {
      total = omega arith;
      panel = rw other (omega arith);
      by_source = λ ip. seen-count_source res.sources src ip;
    })
  ]

  IsTally-cons :
      (a b c : SniffResult) (src : Text) (senders : List Text)
      → IsTally a (src ∷ []) b
      → IsTally b senders c
      → IsTally a (src ∷ senders) c
  IsTally-cons a b c src senders h k = record {
    total = omega (arith, h.total, k.total);
    panel = ground (arith, h.panel, k.panel);
    by_source = λ ip. ground (arith, h.by_source ip, k.by_source ip);
  }

  on_arrival-IsTally :
      (a : Arrival) (res : SniffResult) (senders : List Text) (go : SniffResult → SniffResult)
      → ((r : SniffResult) → IsTally r senders (go r))
      → IsTally res (source_in a senders) (on_arrival ntop decode panel_ip a res go)
  on_arrival-IsTally silent res senders go k = k res
  on_arrival-IsTally failed res senders go k = IsTally-none res
  on_arrival-IsTally (packet bytes src) res senders go k =
      let next = note_packet ntop decode panel_ip bytes src res in
      IsTally-cons res next (go next) src senders (note_packet-IsTally bytes src res) (k next)

  sniff_loop-IsTally :
      (deadline : ℕ) (turns : List Reception) (res : SniffResult)
      → IsTally res (heard deadline turns) (sniff_loop ntop decode panel_ip deadline turns res)
  unfolding sniff_loop
  sniff_loop-IsTally deadline [] res = IsTally-none res
  sniff_loop-IsTally deadline (t ∷ turns) res = elim (Bool-cases (leb deadline t.before)) [
    | inl late ↦ rw late (IsTally-none res)
    | inr early ↦ rw early (
        on_arrival-IsTally t.arrival res (heard deadline turns) _
          (λ r. sniff_loop-IsTally deadline turns r))
  ]

  -- What the sniffing phase counts, where its socket was opened: as many packets as there are senders
  -- heard, as many of the panel as it was heard, and for every address as many as it was heard.
  pub phase_sniff-counts :
      (deadline : ℕ) (turns : List Reception)
      → let res = phase_sniff ntop decode panel_ip true deadline turns in
        (res.total_packets ≡ length (heard deadline turns))
        × (res.panel_packets ≡ count panel_ip (heard deadline turns))
        × ((ip : Text) → seen res ip ≡ count ip (heard deadline turns))
  unfolding phase_sniff get
  phase_sniff-counts deadline turns =
      let tally = sniff_loop-IsTally deadline turns new_sniff in
      (
        omega (arith, tally.total),
        omega (arith, tally.panel),
        λ ip. let grown = tally.by_source ip in omega (arith, grown),
      )

exit_code-one :
    (skip : Bool) (sniff : SniffResult) (unicast : List Record) (enumerated : List Text)
    → exit_code skip sniff unicast enumerated ≡ 1
    → skip ≡ false
    → (1 ≤ sniff.total_packets) × (sniff.panel_packets ≡ 0)
unfolding exit_code
exit_code-one skip sniff unicast enumerated h used = (ground (arith, h, used), ground (arith, h))

code_behind-one :
    (skip : Bool) (sniff : SniffResult) (r : Result (List Record)) (enumerated : List Text)
    → bind r (λ unicast. ok (exit_code skip sniff unicast enumerated)) ≡ ok 1
    → skip ≡ false
    → (1 ≤ sniff.total_packets) × (sniff.panel_packets ≡ 0)
code_behind-one skip sniff (ok unicast) enumerated h used =
    exit_code-one skip sniff unicast enumerated (ok-injective h) used
code_behind-one skip sniff (raised e) enumerated h used = cc

behind_check-one :
    (missing : Bool) (r : Result ℕ)
    → (if missing then raised (system_exit 2) else r) ≡ ok 1
    → r ≡ ok 1
behind_check-one true r h = cc
behind_check-one false r h = h

-- Exit code 1, where the sniffing phase was not skipped and its socket was opened, is a negative with a
-- control: a packet was captured before the deadline, and no packet of the panel.
pub mdns_probe-negative :
    (encode : Text → List ℕ) (ntop decode : List ℕ → Text) (opts : Options) (o : Outside)
    → mdns_probe encode ntop decode opts o ≡ ok 1
    → opts.skip_sniff ≡ false
    → o.opened ≡ true
    → (1 ≤ length (heard o.deadline o.turns)) × (count opts.panel_ip (heard o.deadline o.turns) ≡ 0)
unfolding mdns_probe
mdns_probe-negative encode ntop decode opts o h used opened =
    let (total, panel, by_source) =
      phase_sniff-counts ntop decode opts.panel_ip o.deadline o.turns in
    let sniffs : sniffed encode ntop decode opts o
        ≡ phase_sniff ntop decode opts.panel_ip true o.deadline o.turns =
      rw (used, opened) refl in
    let (some_packet, no_panel) =
      code_behind-one opts.skip_sniff (sniffed encode ntop decode opts o) _ _
        (behind_check-one (is_empty opts.panel_ip) _ h) used in
    let packets : 1
        ≤ (phase_sniff ntop decode opts.panel_ip true o.deadline o.turns).total_packets =
      rw sniffs at some_packet in
    let panels : (phase_sniff ntop decode opts.panel_ip true o.deadline o.turns).panel_packets ≡ 0 =
      rw sniffs at no_panel in
    (omega (arith, packets, total), sym panel ∙ panels)
