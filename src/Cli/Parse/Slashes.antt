-- ===== src/Cli/Parse/Slashes.antt =====
-- That no value of a command holds a slash, crates/eoip-cli/src/parse.rs.
use eo_ip_rs.Base.{
  if◌then◌else◌, drop, All-drop, Result, ok, err, panic, ◌>>=◌, slice_eq, Text, codes, ℕ, ◌≢◌, Bool,
  true, false, ◌||◌, Option, none, some, List, [], ◌∷◌, ◌++◌,
}
use eo_ip_rs.Cli.Words.{parse_u32, Dict, dict_get}
use eo_ip_rs.Cli.Words.Pieces.{OfValues, OfOption, dict_get-OfOption}
use eo_ip_rs.Cli.Tokens.{normalize_tokens, parse_kv}
use eo_ip_rs.Cli.Tokens.Clean.{HasNoSlash, AllClean, normalize_tokens-AllClean, parse_kv-clean}
use eo_ip_rs.Cli.Parse.{
  Command, Filter, by_name, print, by_kv_name, add, set, monitor, health, help, quit, or_err,
  first_id, by_kv, where_clause, shorthand, print_loop, parse_print, or_else, get_either,
  optional_mtu, added, add_from, parse_add, id_of_kv, remove_by, parse_remove, if_enable,
  parse_enable_disable, set_params, parse_set, parse_stats, by_verb, normalized, parse_command,
}

-- What the filter of `print` holds.
abbrev pub CleanFilter : Option Filter → Type 0
CleanFilter (some (by_name name)) = HasNoSlash name
CleanFilter filter = Unit

-- What the values of a command hold.
abbrev pub CleanCommand : Command → Type 0
CleanCommand (add tunnel_id remote local name mtu ipsec_secret) =
    HasNoSlash remote
    × OfOption (λ c. c ≢ b'/') local
    × OfOption (λ c. c ≢ b'/') name
    × OfOption (λ c. c ≢ b'/') ipsec_secret
CleanCommand (set tunnel_id params) = OfValues (λ c. c ≢ b'/') params
CleanCommand (print detail filter) = CleanFilter filter
CleanCommand _ = Unit

abbrev pub Clean : Result Command Text → Type 0
Clean (ok command) = CleanCommand command
Clean (err e) = Unit
Clean panic = Unit

>>=-Clean :
    {A : Type 0} (r : Result A Text) (k : A → Result Command Text)
    → ((a : A) → Clean (k a))
    → Clean (r >>= k)
>>=-Clean (ok a) k h = h a
>>=-Clean (err e) k h = tt
>>=-Clean panic k h = tt

if-Clean : (b : Bool) (x y : Result Command Text) → Clean x → Clean y → Clean (if b then x else y)
if-Clean true x y cx cy = cx
if-Clean false x y cx cy = cy

-- `Clean` as a record, from which the outcome can be read off.
record IsClean (r : Result Command Text) : Type 0 where
  clean_of : Clean r

is_clean : {r : Result Command Text} → Clean r → IsClean r
is_clean c = record { clean_of = c }

if-IsClean :
    (b : Bool) {x y : Result Command Text} → IsClean x → IsClean y → IsClean (if b then x else y)
if-IsClean b {x} {y} cx cy = is_clean (if-Clean b x y (cx.clean_of) (cy.clean_of))

by_kv_name-CleanFilter :
    (filter : Option Filter) (name : Option Text)
    → CleanFilter filter
    → OfOption (λ c. c ≢ b'/') name
    → CleanFilter (by_kv_name filter name)
unfolding by_kv_name
by_kv_name-CleanFilter filter none before clean = before
by_kv_name-CleanFilter filter (some name) before clean = clean

shorthand-CleanFilter :
    (filter : Option Filter) (id : Option ℕ)
    → CleanFilter filter
    → CleanFilter (shorthand filter id)
unfolding shorthand
shorthand-CleanFilter filter none before = before
shorthand-CleanFilter filter (some id) before = tt

by_kv-Clean :
    (detail : Bool) (filter : Option Filter) (kv : Dict) (id : Option Text)
    → CleanFilter filter
    → OfValues (λ c. c ≢ b'/') kv
    → Clean (by_kv detail filter kv id)
unfolding by_kv
by_kv-Clean detail filter kv none before all =
    by_kv_name-CleanFilter filter (dict_get (codes "name") kv) before
      (dict_get-OfOption (λ c. c ≢ b'/') (codes "name") kv all)
by_kv-Clean detail filter kv (some tid) before all =
    >>=-Clean (or_err (codes "invalid tunnel-id: " ++ tid) (parse_u32 tid)) _ (λ id. tt)

or_else-clean :
    (a b : Option Text)
    → OfOption (λ c. c ≢ b'/') a
    → OfOption (λ c. c ≢ b'/') b
    → OfOption (λ c. c ≢ b'/') (or_else a b)
unfolding or_else
or_else-clean none b ca cb = cb
or_else-clean (some a) b ca cb = ca

get_either-clean :
    (a b : Text) (kv : Dict)
    → OfValues (λ c. c ≢ b'/') kv
    → OfOption (λ c. c ≢ b'/') (get_either a b kv)
unfolding get_either
get_either-clean a b kv all =
    or_else-clean (dict_get a kv) (dict_get b kv) (dict_get-OfOption (λ c. c ≢ b'/') a kv all)
      (dict_get-OfOption (λ c. c ≢ b'/') b kv all)

or_err-Clean :
    (e : Text) (o : Option Text) (k : Text → Result Command Text)
    → OfOption (λ c. c ≢ b'/') o
    → ((s : Text) → HasNoSlash s → Clean (k s))
    → Clean (or_err e o >>= k)
or_err-Clean e none k h next = tt
or_err-Clean e (some s) k h next = next s h

added-Clean :
    (kv : Dict) (id : ℕ) (remote : Text)
    → OfValues (λ c. c ≢ b'/') kv
    → HasNoSlash remote
    → Clean (added kv id remote)
unfolding added
added-Clean kv id remote all clean = >>=-Clean (optional_mtu (dict_get (codes "mtu") kv)) _ (λ mtu.
    (
      clean,
      get_either-clean (codes "local-address") (codes "local") kv all,
      dict_get-OfOption (λ c. c ≢ b'/') (codes "name") kv all,
      dict_get-OfOption (λ c. c ≢ b'/') (codes "ipsec-secret") kv all,
    ))

add_from-Clean : (kv : Dict) → OfValues (λ c. c ≢ b'/') kv → Clean (add_from kv)
unfolding add_from
add_from-Clean kv all =
    >>=-Clean (or_err (codes "add requires tunnel-id=<id>") (dict_get (codes "tunnel-id") kv)) _
      (λ id_text. >>=-Clean (or_err (codes "invalid tunnel-id") (parse_u32 id_text)) _ (λ tunnel_id.
        or_err-Clean (codes "add requires remote-address=<ip>")
          (get_either (codes "remote-address") (codes "remote") kv) (added kv tunnel_id)
          (get_either-clean (codes "remote-address") (codes "remote") kv all)
          (λ remote clean. added-Clean kv tunnel_id remote all clean)))

if_enable-Clean : (b : Bool) (id : ℕ) → Clean (if_enable b id)
unfolding if_enable
if_enable-Clean true id = tt
if_enable-Clean false id = tt

parse_enable_disable-Clean : (rest : List Text) (b : Bool) → Clean (parse_enable_disable rest b)
unfolding parse_enable_disable
parse_enable_disable-Clean rest b = >>=-Clean (first_id _ rest) _ (λ id. if_enable-Clean b id)

set_params-Clean : (id : ℕ) (kv : Dict) → OfValues (λ c. c ≢ b'/') kv → Clean (set_params id kv)
unfolding set_params
set_params-Clean id [] all = tt
set_params-Clean id (pair ∷ kv) all = all

parse_stats-Clean : (rest : List Text) → Clean (parse_stats rest)
unfolding parse_stats
parse_stats-Clean [] = tt
parse_stats-Clean (t ∷ rest) =
    >>=-Clean (or_err (codes "invalid tunnel-id: " ++ t) (parse_u32 t)) _ (λ id. tt)

remove_by-Clean : (t : Text) (a b : Option ℕ) → Clean (remove_by t a b)
unfolding remove_by
remove_by-Clean t (some id) b = tt
remove_by-Clean t none b = >>=-Clean (or_err (codes "invalid tunnel-id: " ++ t) b) _ (λ id. tt)

module _ (lower : Text → Text) where
  where_clause-Clean :
      (detail : Bool) (filter : Option Filter) (rest : List Text)
      → CleanFilter filter
      → AllClean rest
      → Clean (where_clause lower detail filter rest)
  unfolding where_clause
  where_clause-Clean detail filter [] before all = tt
  where_clause-Clean detail filter (t ∷ rest) before all =
      by_kv-Clean detail filter (parse_kv lower (t ∷ rest))
        (dict_get (codes "tunnel-id") (parse_kv lower (t ∷ rest))) before
        (parse_kv-clean lower (t ∷ rest) all)

  print_loop-Clean :
      (detail : Bool) (filter : Option Filter) (rest : List Text)
      → CleanFilter filter
      → AllClean rest
      → Clean (print_loop lower detail filter rest)
  unfolding print_loop
  print_loop-Clean detail filter [] before all = before
  print_loop-Clean detail filter (t ∷ rest) before (first, all) =
      if-Clean (slice_eq (lower t) (codes "detail")) _ _
        (print_loop-Clean true filter rest before all)
        (if-Clean (slice_eq (lower t) (codes "where")) _ _
          (where_clause-Clean detail filter rest before all)
          (print_loop-Clean detail (shorthand filter (parse_u32 t)) rest
            (shorthand-CleanFilter filter (parse_u32 t) before) all))

  parse_set-Clean : (rest : List Text) → AllClean rest → Clean (parse_set lower rest)
  unfolding parse_set
  parse_set-Clean rest all =
      >>=-Clean (first_id (codes "set requires a tunnel-id and key=value pairs") rest) _ (λ id.
        set_params-Clean id (parse_kv lower (drop 1 rest))
          (parse_kv-clean lower (drop 1 rest) (All-drop HasNoSlash 1 rest all)))

  parse_remove-Clean : (rest : List Text) → Clean (parse_remove lower rest)
  unfolding parse_remove
  parse_remove-Clean [] = tt
  parse_remove-Clean (t ∷ rest) =
      remove_by-Clean t (parse_u32 t)
        (id_of_kv (dict_get (codes "tunnel-id") (parse_kv lower (t ∷ rest))))

  by_verb-Clean :
      (verb : Text) (rest : List Text) → AllClean rest → IsClean (by_verb lower verb rest)
  unfolding by_verb parse_print parse_add
  by_verb-Clean verb rest all =
      if-IsClean (slice_eq verb (codes "print"))
        (is_clean {r = print_loop lower false none rest} (print_loop-Clean false none rest tt all))
        (if-IsClean (slice_eq verb (codes "add"))
          (is_clean {r = add_from (parse_kv lower rest)}
            (add_from-Clean (parse_kv lower rest) (parse_kv-clean lower rest all)))
          (if-IsClean (slice_eq verb (codes "remove") || slice_eq verb (codes "delete"))
            (is_clean {r = parse_remove lower rest} (parse_remove-Clean rest))
            (if-IsClean (slice_eq verb (codes "enable"))
              (is_clean {r = parse_enable_disable rest true} (parse_enable_disable-Clean rest true))
              (if-IsClean (slice_eq verb (codes "disable"))
                (is_clean {r = parse_enable_disable rest false}
                  (parse_enable_disable-Clean rest false))
                (if-IsClean (slice_eq verb (codes "set"))
                  (is_clean {r = parse_set lower rest} (parse_set-Clean rest all))
                  (if-IsClean (slice_eq verb (codes "monitor") || slice_eq verb (codes "watch"))
                    (is_clean {r = ok monitor} (tt))
                    (if-IsClean
                      (slice_eq verb (codes "stats") || slice_eq verb (codes "statistics"))
                      (is_clean {r = parse_stats rest} (parse_stats-Clean rest))
                      (if-IsClean (slice_eq verb (codes "health") || slice_eq verb (codes "check"))
                        (is_clean {r = ok health} (tt))
                        (if-IsClean (slice_eq verb (codes "help") || slice_eq verb (codes "?"))
                          (is_clean {r = ok help} (tt))
                          (if-IsClean (slice_eq verb (codes "quit") || slice_eq verb (codes "exit"))
                            (is_clean {r = ok quit} (tt))
                            (is_clean {r = err (codes "unknown command: " ++ verb)} tt)))))))))))

  normalized-Clean : (tokens : List Text) → AllClean tokens → Clean (normalized lower tokens)
  unfolding normalized
  normalized-Clean [] all = tt
  normalized-Clean (verb ∷ rest) (first, all) = (by_verb-Clean (lower verb) rest all).clean_of

  -- Whatever is typed, a command that is parsed holds no slash in its address, local address,
  -- name and IPsec secret, none in the name of its filter, and none in the values that it sets.
  pub parse_command-Clean : (tokens : List Text) → Clean (parse_command lower tokens)
  unfolding parse_command
  parse_command-Clean [] = tt
  parse_command-Clean (t ∷ tokens) =
      normalized-Clean (normalize_tokens lower (t ∷ tokens))
        (normalize_tokens-AllClean lower (t ∷ tokens))
