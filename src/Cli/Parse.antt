-- ===== src/Cli/Parse.antt =====
-- crates/eoip-cli/src/parse.rs. `lower` is `str::to_lowercase`.
pub mod Slashes
use eo_ip_rs.Base.{
  if◌then◌else◌, drop, Result, ok, err, ◌>>=◌, slice_eq, Text, codes, ℕ, ◌+◌, ◌-◌, ◌<◌, Bool, true,
  false, ◌||◌, Option, none, some, List, [], ◌∷◌, ◌++◌,
}
use eo_ip_rs.Cli.Words.{parse_u32, Dict, dict_get}
use eo_ip_rs.Cli.Tokens.{shell_split, normalize_tokens, parse_kv}

pub data Filter : Type 0 where
  by_tunnel_id : ℕ → Filter
  by_name : Text → Filter

pub data Command : Type 0 where
  print : (detail : Bool) (filter : Option Filter) → Command
  add :
      (tunnel_id : ℕ) (remote : Text) (local name : Option Text) (mtu : Option ℕ)
      (ipsec_secret : Option Text)
      → Command
  remove enable disable : (tunnel_id : ℕ) → Command
  set : (tunnel_id : ℕ) (params : Dict) → Command
  monitor : Command
  stats : (tunnel_id : Option ℕ) → Command
  health help quit : Command

-- `ok_or`
abbrev pub or_err {ℓ} : {A : Type ℓ} → Text → Option A → Result A Text
or_err e none = err e
or_err e (some a) = ok a

abbrev invalid_id : Text → Text
invalid_id t = codes "invalid tunnel-id: " ++ t

-- `rest[0].parse()` of a command that needs it.
first_id : Text → List Text → Result ℕ Text
unfolding parse_u32
first_id missing [] = err missing
first_id missing (t ∷ rest) = or_err (invalid_id t) (parse_u32 t)

by_kv_name : Option Filter → Option Text → Option Filter
by_kv_name filter none = filter
by_kv_name filter (some name) = some (by_name name)

by_kv : Bool → Option Filter → Dict → Option Text → Result Command Text
unfolding by_kv_name dict_get parse_u32
by_kv detail filter kv none = ok (print detail (by_kv_name filter (dict_get (codes "name") kv)))
by_kv detail filter kv (some tid) = do
  id ← or_err (invalid_id tid) (parse_u32 tid)
  ok (print detail (some (by_tunnel_id id)))

shorthand : Option Filter → Option ℕ → Option Filter
shorthand filter none = filter
shorthand filter (some id) = some (by_tunnel_id id)

or_else : Option Text → Option Text → Option Text
or_else (some v) other = some v
or_else none other = other

-- `kv.get(a).or(kv.get(b))`
get_either : Text → Text → Dict → Option Text
unfolding dict_get or_else
get_either a b kv = or_else (dict_get a kv) (dict_get b kv)

optional_mtu : Option Text → Result (Option ℕ) Text
unfolding parse_u32
optional_mtu none = ok none
optional_mtu (some v) = do n ← or_err (codes "invalid mtu") (parse_u32 v); ok (some n)

added : Dict → ℕ → Text → Result Command Text
unfolding get_either optional_mtu dict_get
added kv tunnel_id remote = do
  mtu ← optional_mtu (dict_get (codes "mtu") kv)
  ok (
      add tunnel_id remote (get_either (codes "local-address") (codes "local") kv)
        (dict_get (codes "name") kv) mtu (dict_get (codes "ipsec-secret") kv))

add_from : Dict → Result Command Text
unfolding added get_either dict_get parse_u32
add_from kv = do
  id_text ← or_err (codes "add requires tunnel-id=<id>") (dict_get (codes "tunnel-id") kv)
  tunnel_id ← or_err (codes "invalid tunnel-id") (parse_u32 id_text)
  remote ←
      or_err (codes "add requires remote-address=<ip>")
        (get_either (codes "remote-address") (codes "remote") kv)
  added kv tunnel_id remote

id_of_kv : Option Text → Option ℕ
unfolding parse_u32
id_of_kv none = none
id_of_kv (some v) = parse_u32 v

remove_by : Text → Option ℕ → Option ℕ → Result Command Text
remove_by t (some id) by_key = ok (remove id)
remove_by t none by_key = do id ← or_err (invalid_id t) by_key; ok (remove id)

if_enable : Bool → ℕ → Result Command Text
if_enable true id = ok (enable id)
if_enable false id = ok (disable id)

unfoldable pub parse_enable_disable : List Text → Bool → Result Command Text
unfolding first_id if_enable
parse_enable_disable rest is_enable = do
  id ←
      first_id
        ((if is_enable then codes "enable" else codes "disable") ++ codes " requires a tunnel-id")
        rest
  if_enable is_enable id

set_params : ℕ → Dict → Result Command Text
set_params id [] = err (codes "set requires at least one key=value pair")
set_params id (pair ∷ params) = ok (set id (pair ∷ params))

unfoldable pub parse_stats : List Text → Result Command Text
unfolding parse_u32
parse_stats [] = ok (stats none)
parse_stats (t ∷ rest) = do id ← or_err (invalid_id t) (parse_u32 t); ok (stats (some id))

module _ (lower : Text → Text) where
  -- `where` with what follows it.
  where_clause : Bool → Option Filter → List Text → Result Command Text
  unfolding by_kv parse_kv dict_get
  where_clause detail filter [] = err (codes "'where' requires a condition (e.g., tunnel-id=100)")
  where_clause detail filter (t ∷ rest) =
      let kv = parse_kv lower (t ∷ rest) in by_kv detail filter kv (dict_get (codes "tunnel-id") kv)

  print_loop : Bool → Option Filter → List Text → Result Command Text
  unfolding where_clause shorthand parse_u32
  print_loop detail filter [] = ok (print detail filter)
  print_loop detail filter (t ∷ rest) =
      let detailed = print_loop true filter rest in
      let other = print_loop detail (shorthand filter (parse_u32 t)) rest in
      if slice_eq (lower t) (codes "detail")
      then detailed
      else if slice_eq (lower t) (codes "where")
      then where_clause detail filter rest
      else other

  unfoldable pub parse_print : List Text → Result Command Text
  unfolding print_loop
  parse_print rest = print_loop false none rest

  unfoldable pub parse_add : List Text → Result Command Text
  unfolding add_from parse_kv
  parse_add rest = add_from (parse_kv lower rest)

  unfoldable pub parse_remove : List Text → Result Command Text
  unfolding remove_by id_of_kv parse_kv dict_get parse_u32
  parse_remove [] = err (codes "remove requires a tunnel-id")
  parse_remove (t ∷ rest) =
      remove_by t (parse_u32 t)
        (id_of_kv (dict_get (codes "tunnel-id") (parse_kv lower (t ∷ rest))))

  unfoldable pub parse_set : List Text → Result Command Text
  unfolding first_id set_params parse_kv
  parse_set rest = do
    id ← first_id (codes "set requires a tunnel-id and key=value pairs") rest
    set_params id (parse_kv lower (drop 1 rest))

  by_verb : Text → List Text → Result Command Text
  unfolding parse_print parse_add parse_remove parse_enable_disable parse_set parse_stats
  by_verb verb rest =
      if slice_eq verb (codes "print")
      then parse_print rest
      else if slice_eq verb (codes "add")
      then parse_add rest
      else if slice_eq verb (codes "remove") || slice_eq verb (codes "delete")
      then parse_remove rest
      else if slice_eq verb (codes "enable")
      then parse_enable_disable rest true
      else if slice_eq verb (codes "disable")
      then parse_enable_disable rest false
      else if slice_eq verb (codes "set")
      then parse_set rest
      else if slice_eq verb (codes "monitor") || slice_eq verb (codes "watch")
      then ok monitor
      else if slice_eq verb (codes "stats") || slice_eq verb (codes "statistics")
      then parse_stats rest
      else if slice_eq verb (codes "health") || slice_eq verb (codes "check")
      then ok health
      else if slice_eq verb (codes "help") || slice_eq verb (codes "?")
      then ok help
      else if slice_eq verb (codes "quit") || slice_eq verb (codes "exit")
      then ok quit
      else err (codes "unknown command: " ++ verb)

  normalized : List Text → Result Command Text
  unfolding by_verb
  normalized [] = err (codes "empty command after normalization")
  normalized (verb ∷ rest) = by_verb (lower verb) rest

  unfoldable pub parse_command : List Text → Result Command Text
  unfolding normalized normalize_tokens
  parse_command [] = err (codes "empty command")
  parse_command (t ∷ tokens) = normalized (normalize_tokens lower (t ∷ tokens))

  line_tokens : List Text → Result Command Text
  unfolding parse_command
  line_tokens [] = err (codes "empty input")
  line_tokens (t ∷ tokens) = parse_command (t ∷ tokens)

  unfoldable pub parse_line : Text → Result Command Text
  unfolding line_tokens shell_split
  parse_line line = line_tokens (shell_split line)
