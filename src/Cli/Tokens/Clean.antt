-- ===== src/Cli/Tokens/Clean.antt =====
-- That no token holds a slash, and no value of a pair, crates/eoip-cli/src/parse.rs.
use eo_ip_rs.Base.{
  if◌then◌else◌, All, All-append, Text, ◌≢◌, Bool, true, false, Option, none, some, List, [], ◌∷◌,
}
use eo_ip_rs.Cli.Words.{trim, split, split_once, Dict}
use eo_ip_rs.Cli.Words.Pieces.{
  trim-All, OfValue, split_once-OfValue, OfValues, dict_insert-OfValues, split-All,
}
use eo_ip_rs.Cli.Tokens.{
  push_segment, kept, segments_of, is_prefix, strip_prefixes, normalize_tokens, insert_pair,
  kv_from, parse_kv,
}

abbrev pub HasNoSlash : Text → Type 0
HasNoSlash = All (λ c. c ≢ b'/')

abbrev pub AllClean : List Text → Type 0
AllClean = All HasNoSlash

push_segment-AllClean :
    (segment : Text) (segments : List Text)
    → HasNoSlash segment
    → AllClean segments
    → AllClean (push_segment segment segments)
unfolding push_segment
push_segment-AllClean [] segments first all = all
push_segment-AllClean (c ∷ s) segments first all = (first, all)

kept-AllClean : (segments : List Text) → AllClean segments → AllClean (kept segments)
unfolding kept
kept-AllClean [] all = tt
kept-AllClean (segment ∷ segments) (first, all) =
    push_segment-AllClean (trim segment) (kept segments) (trim-All (λ c. c ≢ b'/') segment first)
      (kept-AllClean segments all)

segments_of-AllClean : (tokens : List Text) → AllClean (segments_of tokens)
unfolding segments_of
segments_of-AllClean [] = tt
segments_of-AllClean (token ∷ tokens) =
    All-append HasNoSlash (kept (split b'/' token)) (segments_of tokens)
      (kept-AllClean (split b'/' token) (split-All b'/' token)) (segments_of-AllClean tokens)

if-AllClean : (b : Bool) (x y : List Text) → AllClean x → AllClean y → AllClean (if b then x else y)
if-AllClean true x y cx cy = cx
if-AllClean false x y cx cy = cy

module _ (lower : Text → Text) where
  strip_prefixes-AllClean :
      (tokens : List Text) → AllClean tokens → AllClean (strip_prefixes lower tokens)
  unfolding strip_prefixes
  strip_prefixes-AllClean [] all = tt
  strip_prefixes-AllClean (t ∷ ts) (first, all) =
      if-AllClean (is_prefix lower t) (strip_prefixes lower ts) (t ∷ ts)
        (strip_prefixes-AllClean ts all) (first, all)

  insert_pair-clean :
      (pair : Option (Text × Text)) (m : Dict)
      → OfValue (λ c. c ≢ b'/') pair
      → OfValues (λ c. c ≢ b'/') m
      → OfValues (λ c. c ≢ b'/') (insert_pair lower pair m)
  unfolding insert_pair
  insert_pair-clean none m h all = all
  insert_pair-clean (some (k, v)) m h all = dict_insert-OfValues (λ c. c ≢ b'/') (lower k) v m h all

  kv_from-clean :
      (m : Dict) (tokens : List Text)
      → OfValues (λ c. c ≢ b'/') m
      → AllClean tokens
      → OfValues (λ c. c ≢ b'/') (kv_from lower m tokens)
  unfolding kv_from
  kv_from-clean m [] all clean = all
  kv_from-clean m (t ∷ ts) all (first, clean) =
      kv_from-clean (insert_pair lower (split_once b'=' t) m) ts
        (insert_pair-clean (split_once b'=' t) m (split_once-OfValue (λ c. c ≢ b'/') b'=' t first)
          all)
        clean

  pub parse_kv-clean :
      (tokens : List Text) → AllClean tokens → OfValues (λ c. c ≢ b'/') (parse_kv lower tokens)
  unfolding parse_kv
  parse_kv-clean tokens clean = kv_from-clean [] tokens tt clean

  pub normalize_tokens-AllClean : (tokens : List Text) → AllClean (normalize_tokens lower tokens)
  unfolding normalize_tokens
  normalize_tokens-AllClean tokens =
      strip_prefixes-AllClean (segments_of tokens) (segments_of-AllClean tokens)
