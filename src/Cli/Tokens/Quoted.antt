-- ===== src/Cli/Tokens/Quoted.antt =====
-- That quoting undoes the splitting of a line, crates/eoip-cli/src/parse.rs.
use eo_ip_rs.Base.{
  All, Text, ℕ, ◌≡◌, refl, sym, ap, ◌∙◌, ◌≢◌, Option, none, some, List, [], ◌∷◌, ◌++◌, append-nil,
  append_assoc, arith,
}
use eo_ip_rs.Cli.Tokens.{Splitter, push, with_current, step, split_from, shell_split}

-- A token that fits between double quotes: not empty, and without one.
pub record IsQuotable (t : Text) : Type 0 where
  pub not_empty : t ≢ []
  pub no_quote : All (λ c. c ≢ b'"') t

-- Each token in double quotes with a blank behind it.
pub quoted : List Text → Text
quoted [] = []
quoted (t ∷ ts) = b'"' ∷ (t ++ b'"' ∷ b' ' ∷ quoted ts)

abbrev in_token : List Text → Text → Option ℕ → Splitter
in_token tokens current quote = record { tokens = tokens; current = current; quote = quote }

step_quoted :
    (tokens : List Text) (current : Text) (c : ℕ)
    → c ≢ b'"'
    → step (some b'"') (in_token tokens current (some b'"')) c
      ≡ in_token tokens (current ++ c ∷ []) (some b'"')
unfolding step push
step_quoted tokens current c ne = ground arith

-- Up to the closing quote every character is the token's.
split_from-quoted :
    (tokens : List Text) (current t rest : Text)
    → All (λ c. c ≢ b'"') t
    → split_from (in_token tokens current (some b'"')) (t ++ b'"' ∷ rest)
      ≡ split_from (in_token tokens (current ++ t) none) rest
unfolding split_from step push
split_from-quoted tokens current [] rest all = rw append-nil refl
split_from-quoted tokens current (c ∷ t) rest (ne, all) =
    ap (λ s. split_from s (t ++ b'"' ∷ rest)) (step_quoted tokens current c ne)
    ∙ split_from-quoted tokens (current ++ c ∷ []) t rest all
    ∙ ap (λ u. split_from (in_token tokens u none) rest) (append_assoc current (c ∷ []) t)

with_current_more :
    (tokens : List Text) (t : Text) → t ≢ [] → with_current tokens t ≡ tokens ++ t ∷ []
unfolding with_current
with_current_more tokens [] ne = absurd (ne refl)
with_current_more tokens (c ∷ t) ne = refl

split_from-quoted_tokens :
    (tokens ts : List Text)
    → All IsQuotable ts
    → split_from (in_token tokens [] none) (quoted ts) ≡ tokens ++ ts
unfolding split_from step quoted
split_from-quoted_tokens tokens [] all = sym (append-nil tokens)
split_from-quoted_tokens tokens (t ∷ ts) (sound, all) =
    split_from-quoted tokens [] t (b' ' ∷ quoted ts) sound.no_quote
    ∙ ap (λ u. split_from (in_token u [] none) (quoted ts))
        (with_current_more tokens t sound.not_empty)
    ∙ split_from-quoted_tokens (tokens ++ t ∷ []) ts all
    ∙ append_assoc tokens (t ∷ []) ts

-- Tokens that are not empty and hold no double quote, each put in double quotes with a blank behind
-- it, are split into exactly these tokens.
pub shell_split-quoted : (ts : List Text) → All IsQuotable ts → shell_split (quoted ts) ≡ ts
unfolding shell_split
shell_split-quoted ts all = split_from-quoted_tokens [] ts all
