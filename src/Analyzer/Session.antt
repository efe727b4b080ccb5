-- ===== src/Analyzer/Session.antt =====
-- The loop of the analyzer's `main`, crates/eoip-analyzer/src/main.rs, without its output. The packets
-- are what the capture's iterator gives; `none` is a panic of the decoder.
use eo_ip_rs.Base.{
  length, ◌≤◌, ◌<◌, ◌⊎◌, inl, inr, ◌++◌, refl, ap, arith, Bool-cases, ◌≢◌, ltb, leb, ◌==◌,
  if◌then◌else◌, Result, ok, err, panic, Text, ℕ, ◌+◌, ◌≡◌, subst, Bool, true, false, ◌&&◌, not,
  Option, none, some, List, [], ◌∷◌,
}
use eo_ip_rs.Proto.Types.Addr.{IpAddr}
use eo_ip_rs.Analyzer.Error.{AnalyzerError}
use eo_ip_rs.Analyzer.Decode.{DecodedPacket, RawPacket, decode_packet}
use eo_ip_rs.Analyzer.Stats.Tally.{
  IsTally, record_skipped-IsTally, record_error-IsTally, record_result-IsTally, record_result-total,
}
use eo_ip_rs.Analyzer.Stats.{SessionStats, record_result, record_skipped, record_error}

-- `cli.tunnel_id`, `cli.limit`, `cli.udp_port`
pub record Cli : Type 0 where
  pub tunnel_id : Option ℕ
  pub limit : ℕ
  pub udp_port : ℕ

-- The filter by the tunnel's id lets errors pass.
filtered_out : Option ℕ → Result DecodedPacket AnalyzerError → Bool
filtered_out none r = false
filtered_out (some filter_tid) (err e) = false
filtered_out (some filter_tid) panic = false
filtered_out (some filter_tid) (ok pkt) = not (pkt.tunnel_id == filter_tid)

panics : Result DecodedPacket AnalyzerError → Bool
panics (ok pkt) = false
panics (err e) = false
panics panic = true

-- The limit is looked at after a packet that was recorded.
unfoldable pub analyze :
    (IpAddr → Text)
    → Cli
    → (packet_number : ℕ) → List (Result RawPacket AnalyzerError)
    → SessionStats
    → Option SessionStats
unfolding filtered_out panics decode_packet record_result record_skipped record_error
analyze show_ip cli n [] stats = some stats
analyze show_ip cli n (err e ∷ source) stats = analyze show_ip cli n source (record_error stats)
analyze show_ip cli n (panic ∷ source) stats = none
analyze show_ip cli n (ok raw ∷ source) stats =
    let decoded = decode_packet show_ip (n + 1) raw cli.udp_port in
    let passed_over = analyze show_ip cli (n + 1) source (record_skipped stats) in
    let recorded = record_result decoded stats in
    let rest = analyze show_ip cli (n + 1) source recorded in
    if panics decoded
    then none
    else if filtered_out cli.tunnel_id decoded
    then passed_over
    else if ltb 0 cli.limit && leb cli.limit (n + 1)
    then some recorded
    else rest

-- The packets up to the end of the loop: all of them, unless the limit ended it among them; each has
-- counted for one in the total, and the classes make up the total.
pub record IsCounted (cli : Cli) (n : ℕ) (source : List (Result RawPacket AnalyzerError))
    (s out : SessionStats) : Type 0 where
  pub gone : List (Result RawPacket AnalyzerError)
  pub rest : List (Result RawPacket AnalyzerError)
  pub split : source ≡ gone ++ rest
  pub total : out.total_packets ≡ s.total_packets + length gone
  pub ended : (rest ≡ []) ⊎ ((0 < cli.limit) × (cli.limit ≤ n + length gone))
  pub tally : IsTally out

-- A further packet in front, which may have been numbered.
IsCounted-cons :
    (cli : Cli) (n m : ℕ) (p : Result RawPacket AnalyzerError)
    (source : List (Result RawPacket AnalyzerError)) (s next out : SessionStats)
    → m ≤ n + 1
    → next.total_packets ≡ s.total_packets + 1
    → IsCounted cli m source next out
    → IsCounted cli n (p ∷ source) s out
IsCounted-cons cli n m p source s next out small one h =
    let t = h.total in
    record {
      gone = p ∷ h.gone;
      rest = h.rest;
      split = ap (λ xs. p ∷ xs) h.split;
      total = omega arith;
      ended = elim h.ended [
        | inl all ↦ inl all
        | inr (some_limit, reached) ↦ inr (some_limit, omega arith)
      ];
      tally = h.tally;
    }

stopped :
    (cli : Cli) (n : ℕ) (p : Result RawPacket AnalyzerError)
    (source : List (Result RawPacket AnalyzerError)) (s next : SessionStats)
    → (ltb 0 cli.limit && leb cli.limit (n + 1)) ≡ true
    → next.total_packets ≡ s.total_packets + 1
    → IsTally next
    → IsCounted cli n (p ∷ source) s next
stopped cli n p source s next at_limit one tallies = record {
  gone = p ∷ [];
  rest = source;
  split = refl;
  total = one;
  ended = inr (limit_reached cli.limit (n + 1) at_limit);
  tally = tallies;
}
  where
    limit_reached : (limit m : ℕ) → (ltb 0 limit && leb limit m) ≡ true → (0 < limit) × (limit ≤ m)
    limit_reached limit m h = ground arith

not_panic : (r : Result DecodedPacket AnalyzerError) → panics r ≡ false → r ≢ panic
unfolding panics
not_panic (ok pkt) fine e = cc
not_panic (err x) fine e = cc
not_panic panic fine e = cc

-- Over any capture, filter and limit: if the counters tally at first, each packet up to the end of the
-- loop, which is the end of the capture or where the limit is reached, counts for one in the total,
-- and at the end the total is again the sum of the classes, with keepalives among the EoIP packets.
pub analyze-IsCounted :
    (show_ip : IpAddr → Text) (cli : Cli) (n : ℕ) (source : List (Result RawPacket AnalyzerError))
    (s out : SessionStats)
    → IsTally s
    → analyze show_ip cli n source s ≡ some out
    → IsCounted cli n source s out
unfolding analyze
analyze-IsCounted show_ip cli n [] s out h e =
    let same : (s ≡ out) = cc e in
    subst (IsCounted cli n [] s) same (record {
      gone = [];
      rest = [];
      split = refl;
      total = omega arith;
      ended = inl refl;
      tally = h;
    })
analyze-IsCounted show_ip cli n (err x ∷ source) s out h e =
    IsCounted-cons cli n n (err x) source s (record_error s) out (omega arith)
      (unfold record_error in refl)
      (analyze-IsCounted show_ip cli n source (record_error s) out (record_error-IsTally s h) e)
analyze-IsCounted show_ip cli n (panic ∷ source) s out h e = cc
analyze-IsCounted show_ip cli n (ok raw ∷ source) s out h e =
    let decoded = decode_packet show_ip (n + 1) raw cli.udp_port in
    let next = record_result decoded s in
    let tallies = record_result-IsTally decoded s h in
    elim (Bool-cases (panics decoded)) [
      | inl bad ↦ absurd (cc (rw bad at e))
      | inr fine ↦ elim (Bool-cases (filtered_out cli.tunnel_id decoded)) [
        | inl out_of_filter ↦
            IsCounted-cons cli n (n + 1) (ok raw) source s (record_skipped s) out (omega arith)
              (unfold record_skipped in refl)
              (analyze-IsCounted show_ip cli (n + 1) source (record_skipped s) out
                (record_skipped-IsTally s h) (rw (fine, out_of_filter) at e))
        | inr kept ↦
            let one = record_result-total decoded s (not_panic decoded fine) in
            elim (Bool-cases (ltb 0 cli.limit && leb cli.limit (n + 1))) [
              | inl at_limit ↦
                  let same : (next ≡ out) = cc (rw (fine, kept, at_limit) at e) in
                  subst (IsCounted cli n (ok raw ∷ source) s) same
                    (stopped cli n (ok raw) source s next at_limit one tallies)
              | inr more ↦
                  IsCounted-cons cli n (n + 1) (ok raw) source s next out (omega arith) one (
                    analyze-IsCounted show_ip cli (n + 1) source next out tallies
                      (rw (fine, kept, more) at e))
            ]
      ]
    ]
