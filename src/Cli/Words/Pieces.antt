-- ===== src/Cli/Words/Pieces.antt =====
-- The characters of what the operations on `str` give, for crates/eoip-cli.
use eo_ip_rs.Base.{
  ◌==◌, if◌then◌else◌, Bool-cases, All, slice_eq, Text, ℕ, ◌≢◌, inl, inr, Bool, true, false, Option,
  none, some, List, [], ◌∷◌, arith,
}
use eo_ip_rs.Cli.Words.{
  is_whitespace, add_to_first, split, trim_start, cons_unless_blank, trim_end, trim, split_once,
  Dict, dict_get, dict_insert,
}

if-holds : {A : Type 0} (P : A → Type 0) (b : Bool) (x y : A) → P x → P y → P (if b then x else y)
if-holds P true x y px py = px
if-holds P false x y px py = py

module _ (P : ℕ → Type 0) where
  trim_start-All : (s : Text) → All P s → All P (trim_start s)
  unfolding trim_start
  trim_start-All [] all = tt
  trim_start-All (c ∷ s) (pc, all) =
      if-holds (All P) (is_whitespace c) (trim_start s) (c ∷ s) (trim_start-All s all) (pc, all)

  cons_unless_blank-All : (c : ℕ) (s : Text) → P c → All P s → All P (cons_unless_blank c s)
  unfolding cons_unless_blank
  cons_unless_blank-All c [] pc all = if-holds (All P) (is_whitespace c) [] (c ∷ []) tt (pc, tt)
  cons_unless_blank-All c (d ∷ s) pc all = (pc, all)

  trim_end-All : (s : Text) → All P s → All P (trim_end s)
  unfolding trim_end
  trim_end-All [] all = tt
  trim_end-All (c ∷ s) (pc, all) = cons_unless_blank-All c (trim_end s) pc (trim_end-All s all)

  pub trim-All : (s : Text) → All P s → All P (trim s)
  unfolding trim
  trim-All s all = trim_end-All (trim_start s) (trim_start-All s all)

  -- The value of a pair that is given.
  abbrev pub OfValue : Option (Text × Text) → Type 0
  OfValue none = Unit
  OfValue (some (k, v)) = All P v

  after_first-OfValue :
      (c : ℕ) (rest : Option (Text × Text))
      → OfValue rest
      → OfValue (elim rest [ none ↦ none | some (k, v) ↦ some (c ∷ k, v) ])
  after_first-OfValue c none h = tt
  after_first-OfValue c (some (k, v)) h = h

  pub split_once-OfValue : (sep : ℕ) (s : Text) → All P s → OfValue (split_once sep s)
  unfolding split_once
  split_once-OfValue sep [] all = tt
  split_once-OfValue sep (c ∷ s) (pc, all) =
      if-holds OfValue (c == sep) (some ([], s)) _ all
        (after_first-OfValue c (split_once sep s) (split_once-OfValue sep s all))

  abbrev pub OfValues : Dict → Type 0
  OfValues = All (λ pair. All P pair.1)

  pub dict_insert-OfValues :
      (k v : Text) (m : Dict) → All P v → OfValues m → OfValues (dict_insert k v m)
  unfolding dict_insert
  dict_insert-OfValues k v [] all none_yet = (all, tt)
  dict_insert-OfValues k v ((j, w) ∷ m) all (first, more) =
      if-holds OfValues (slice_eq j k) ((k, v) ∷ m) ((j, w) ∷ dict_insert k v m) (all, more)
        (first, dict_insert-OfValues k v m all more)

  abbrev pub OfOption : Option Text → Type 0
  OfOption none = Unit
  OfOption (some s) = All P s

  pub dict_get-OfOption : (k : Text) (m : Dict) → OfValues m → OfOption (dict_get k m)
  unfolding dict_get
  dict_get-OfOption k [] all = tt
  dict_get-OfOption k ((j, v) ∷ m) (first, more) =
      if-holds OfOption (slice_eq j k) (some v) (dict_get k m) first (dict_get-OfOption k m more)

add_to_first-All :
    (Q : Text → Type 0) (c : ℕ) (ps : List Text)
    → ((p : Text) → Q p → Q (c ∷ p))
    → Q []
    → All Q ps
    → All Q (add_to_first c ps)
unfolding add_to_first
add_to_first-All Q c [] longer empty all = (longer [] empty, tt)
add_to_first-All Q c (p ∷ ps) longer empty (first, all) = (longer p first, all)

-- No piece holds the separator.
pub split-All : (sep : ℕ) (s : Text) → All (All (λ c. c ≢ sep)) (split sep s)
unfolding split
split-All sep [] = (tt, tt)
split-All sep (c ∷ s) = elim (Bool-cases (c == sep)) [
  | inl same ↦ rw same (tt, split-All sep s)
  | inr other ↦ rw other (
      add_to_first-All (All (λ c. c ≢ sep)) c (split sep s) (λ p h. (ground arith, h)) tt
        (split-All sep s))
]
