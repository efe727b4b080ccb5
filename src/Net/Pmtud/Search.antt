-- ===== src/Net/Pmtud/Search.antt =====
-- The binary search: it ends within ten probes, and what it finds on a path that has an MTU.
use eo_ip_rs.Base.{
  leb, if◌then◌else◌, Bool-cases, not_leb→lt, Result, ok, err, panic, ℕ, zero, suc, ◌+◌, ◌-◌, ◌/◌,
  ◌^◌, ◌≤◌, ◌<◌, ◌≡◌, refl, sym, ap, ◌∙◌, subst, ◌≢◌, ◌⊎◌, inl, inr, Bool, true, false, Option,
  none, some, arith,
}
use native.Mathlib.Nat.{pow-suc}
use eo_ip_rs.Proto.Types.Addr.{IpAddr, v4, v6}
use eo_ip_rs.Net.Pmtud.{
  Attempt, replied, too_big, search, works_at, searched, probe_path_mtu, all_timed_out, PmtudError,
  min_probe,
}

-- A result of the search from `lo` to `hi` with `best` so far: a value of the range, or `best`, after
-- at most `limit` probes.
abbrev EndsIn : (lo hi best limit : ℕ) → Option (ℕ × ℕ) → Type 0
EndsIn lo hi best limit none = ⊥
EndsIn lo hi best limit (some (found, count)) =
    ((found ≡ best) ⊎ ((lo ≤ found) × (found ≤ hi))) × (count ≤ limit)

EndsIn-wider :
    (lo hi best lo' hi' best' limit limit' : ℕ) (r : Option (ℕ × ℕ))
    → lo' ≤ lo
    → hi ≤ hi'
    → limit ≤ limit'
    → (best ≡ best') ⊎ ((lo' ≤ best) × (best ≤ hi'))
    → EndsIn lo hi best limit r
    → EndsIn lo' hi' best' limit' r
EndsIn-wider lo hi best lo' hi' best' limit limit' (some (found, count)) a b c d e = ground arith
EndsIn-wider lo hi best lo' hi' best' limit limit' none a b c d e = e

-- One round, by what the probe of the middle says.
module _ (works : ℕ → Bool) (fuel lo hi best probes : ℕ) (range : lo ≤ hi) where
  abbrev middle : ℕ
  middle = lo + (hi - lo) / 2

  round_top :
      works middle ≡ true
      → middle ≡ hi
      → search works (suc fuel) lo hi best probes ≡ some (middle, probes + 1)
  unfolding search
  round_top yes_ at = ground arith

  round_up :
      works middle ≡ true
      → middle < hi
      → search works (suc fuel) lo hi best probes
        ≡ search works fuel (middle + 1) hi middle (probes + 1)
  unfolding search
  round_up yes_ below = ground arith

  round_bottom :
      works middle ≡ false
      → middle ≡ lo
      → search works (suc fuel) lo hi best probes ≡ some (best, probes + 1)
  unfolding search
  round_bottom no_ at = ground arith

  round_down :
      works middle ≡ false
      → lo < middle
      → search works (suc fuel) lo hi best probes
        ≡ search works fuel lo (middle - 1) best (probes + 1)
  unfolding search
  round_down no_ above = ground arith

-- The four rounds, told apart by the probe and by where the middle lies.
pub data Round (works : ℕ → Bool) (lo hi : ℕ) : Type 0 where
  top : works (lo + (hi - lo) / 2) ≡ true → lo + (hi - lo) / 2 ≡ hi → Round works lo hi
  up : works (lo + (hi - lo) / 2) ≡ true → lo + (hi - lo) / 2 < hi → Round works lo hi
  bottom : works (lo + (hi - lo) / 2) ≡ false → lo + (hi - lo) / 2 ≡ lo → Round works lo hi
  down : works (lo + (hi - lo) / 2) ≡ false → lo < lo + (hi - lo) / 2 → Round works lo hi

le_cases : (a b : ℕ) → a ≤ b → (a ≡ b) ⊎ (a < b)
le_cases a b h = grind arith

round : (works : ℕ → Bool) (lo hi : ℕ) → lo ≤ hi → Round works lo hi
round works lo hi range = elim (Bool-cases (works (lo + (hi - lo) / 2))) [
  | inl w ↦ elim (le_cases (lo + (hi - lo) / 2) hi (omega arith)) [
    | inl e ↦ top w e
    | inr l ↦ up w l
  ]
  | inr w ↦ elim (le_cases lo (lo + (hi - lo) / 2) (omega arith)) [
    | inl e ↦ bottom w (sym e)
    | inr l ↦ down w l
  ]
]

search-EndsIn :
    (works : ℕ → Bool) (fuel lo hi best probes : ℕ)
    → lo ≤ hi
    → hi - lo + 2 ≤ 2 ^ fuel
    → EndsIn lo hi best (probes + fuel) (search works fuel lo hi best probes)
search-EndsIn works zero lo hi best probes range size = absurd (omega arith)
search-EndsIn works (suc fuel) lo hi best probes range size =
    let mid = lo + (hi - lo) / 2 in
    let half = pow-suc 2 fuel in
    let E = EndsIn lo hi best (probes + suc fuel) in
    elim (round works lo hi range) [
      | top w e ↦ subst E (sym (round_top works fuel lo hi best probes range w e)) (omega arith)
      | up w l ↦ subst E (sym (round_up works fuel lo hi best probes range w l)) (
          EndsIn-wider (mid + 1) hi mid lo hi best (probes + 1 + fuel) (probes + suc fuel) _
            (omega arith) (omega arith) (omega arith) (inr (omega arith))
            (search-EndsIn works fuel (mid + 1) hi mid (probes + 1) (omega arith) (omega arith)))
      | bottom w e ↦
          subst E (sym (round_bottom works fuel lo hi best probes range w e))
            (inl refl, omega arith)
      | down w l ↦ subst E (sym (round_down works fuel lo hi best probes range w l)) (
          EndsIn-wider lo (mid - 1) best lo hi best (probes + 1 + fuel) (probes + suc fuel) _
            (omega arith) (omega arith) (omega arith) (inl refl)
            (search-EndsIn works fuel lo (mid - 1) best (probes + 1) (omega arith) (omega arith)))
    ]

-- Whatever the network answers, the search over the range of the program ends by itself after at most
-- ten probes, and its result is in the range.
pub search_ends :
    (works : ℕ → Bool)
    → (r : ℕ × ℕ) × (search works 10 576 1500 576 0 ≡ some r)
      × (576 ≤ r.0)
      × (r.0 ≤ 1500)
      × (r.1 ≤ 10)
search_ends works =
    ended (search works 10 576 1500 576 0) refl
      (search-EndsIn works 10 576 1500 576 0 (omega arith) (omega arith))
  where
    ended :
        (o : Option (ℕ × ℕ))
        → search works 10 576 1500 576 0 ≡ o
        → EndsIn 576 1500 576 10 o
        → (r : ℕ × ℕ) × (search works 10 576 1500 576 0 ≡ some r)
          × (576 ≤ r.0)
          × (r.0 ≤ 1500)
          × (r.1 ≤ 10)
    ended none e h = absurd h
    ended (some r) e h = (r, e, omega arith, omega arith, omega arith)

abbrev found : Option (ℕ × ℕ) → Option ℕ
found none = none
found (some r) = some r.0

-- A network that answers every buffer that fits into a packet of `t` bytes with the `added` bytes that
-- the kernel puts in front of it, and reports the longer ones.
abbrev pub Carries : (added t : ℕ) → (ℕ → ℕ → Attempt) → Type 0
Carries added t attempts =
    (total try : ℕ) → attempts total try ≡ (if leb (total + added) t then replied else too_big)

searched-found :
    (o : Option (ℕ × ℕ)) (b : ℕ)
    → found o ≡ some b
    → searched o ≡ (if leb b min_probe then err all_timed_out else ok b)
unfolding searched
searched-found none b h = cc
searched-found (some (best, probes)) b h = ground arith

-- Whatever the socket and the network answer, discovery returns a value from 577 to 1500 or an error,
-- and never runs on or panics.
pub probe_path_mtu_total :
    (setup : Result (Unit {0}) PmtudError) (attempts : ℕ → ℕ → Attempt) (remote : IpAddr)
    → setup ≢ panic
    → ((mtu : ℕ) × (probe_path_mtu setup attempts remote ≡ ok mtu) × (577 ≤ mtu) × (mtu ≤ 1500))
      ⊎ ((e : PmtudError) × (probe_path_mtu setup attempts remote ≡ err e))
unfolding probe_path_mtu
probe_path_mtu_total setup attempts (v6 octets) fine = inr (_, refl)
probe_path_mtu_total (err e) attempts (v4 a b c d) fine = inr (e, refl)
probe_path_mtu_total panic attempts (v4 a b c d) fine = absurd (fine refl)
probe_path_mtu_total (ok u) attempts (v4 a b c d) fine =
    let ((best, n), e, low, high, few) = search_ends (works_at attempts) in
    let r = searched-found _ best (ap found e) in
    elim (Bool-cases (leb best 576)) [
      | inl small ↦ inr (all_timed_out, r ∙ rw small)
      | inr large ↦ inl (best, r ∙ rw large, not_leb→lt best 576 large, high)
    ]
