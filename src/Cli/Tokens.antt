-- ===== src/Cli/Tokens.antt =====
-- The tokens of a command line and their pairs, crates/eoip-cli/src/parse.rs. `lower` is
-- `str::to_lowercase`.
pub mod Quoted
pub mod Clean
use eo_ip_rs.Base.{
  ◌==◌, if◌then◌else◌, slice_eq, Text, codes, ℕ, ◌+◌, ◌/◌, Bool, ◌||◌, Option, none, some, List, [],
  ◌∷◌, ◌++◌,
}
use eo_ip_rs.Cli.Words.{is_whitespace, split, trim, split_once, Dict, dict_insert}

-- The loop of `shell_split`: the tokens so far, the one that is read, and the quote that is open.
pub record Splitter : Type 0 where
  pub tokens : List Text
  pub current : Text
  pub quote : Option ℕ

push : ℕ → Splitter → Splitter
push ch s = record s { current = s.current ++ ch ∷ [] }

with_current : List Text → Text → List Text
with_current tokens [] = tokens
with_current tokens (c ∷ cs) = tokens ++ (c ∷ cs) ∷ []

step : Option ℕ → Splitter → ℕ → Splitter
unfolding push with_current is_whitespace
step (some quote_char) s ch = if ch == quote_char then record s { quote = none } else push ch s
step none s ch =
    if ch == b'"' || ch == b'\''
    then record s { quote = some ch }
    else if is_whitespace ch
    then record s { tokens = with_current s.tokens s.current; current = [] }
    else push ch s

split_from : Splitter → Text → List Text
unfolding step with_current
split_from s [] = with_current s.tokens s.current
split_from s (ch ∷ line) = split_from (step s.quote s ch) line

unfoldable pub shell_split : Text → List Text
unfolding split_from
shell_split line = split_from (record { tokens = []; current = []; quote = none }) line

push_segment : Text → List Text → List Text
push_segment [] segments = segments
push_segment (c ∷ s) segments = (c ∷ s) ∷ segments

-- The pieces that are not blank, trimmed.
kept : List Text → List Text
unfolding trim push_segment
kept [] = []
kept (segment ∷ segments) = push_segment (trim segment) (kept segments)

segments_of : List Text → List Text
unfolding split kept
segments_of [] = []
segments_of (token ∷ tokens) = kept (split b'/' token) ++ segments_of tokens

module _ (lower : Text → Text) where
  is_prefix : Text → Bool
  is_prefix token =
      let word = lower token in
      slice_eq word (codes "interface")
      || slice_eq word (codes "eoip")
      || slice_eq word (codes "system")

  strip_prefixes : List Text → List Text
  unfolding is_prefix
  strip_prefixes [] = []
  strip_prefixes (token ∷ tokens) =
      let rest = strip_prefixes tokens in if is_prefix token then rest else token ∷ tokens

  unfoldable pub normalize_tokens : List Text → List Text
  unfolding segments_of strip_prefixes
  normalize_tokens tokens = strip_prefixes (segments_of tokens)

  insert_pair : Option (Text × Text) → Dict → Dict
  unfolding dict_insert
  insert_pair none m = m
  insert_pair (some (k, v)) m = dict_insert (lower k) v m

  kv_from : Dict → List Text → Dict
  unfolding insert_pair split_once
  kv_from m [] = m
  kv_from m (token ∷ tokens) = kv_from (insert_pair (split_once b'=' token) m) tokens

  unfoldable pub parse_kv : List Text → Dict
  unfolding kv_from
  parse_kv tokens = kv_from [] tokens
