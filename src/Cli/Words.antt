-- ===== src/Cli/Words.antt =====
-- The operations on `str` that the client uses. A `HashMap` of strings is a list of pairs in which a
-- key stands once.
pub mod Pieces
use eo_ip_rs.Base.{
  leb, ◌==◌, if◌then◌else◌, slice_eq, Text, ℕ, ◌+◌, ◌-◌, ◌*◌, Bool, ◌&&◌, ◌||◌, Option, none, some,
  List, [], ◌∷◌,
}

-- `char::is_whitespace`
unfoldable pub is_whitespace : ℕ → Bool
is_whitespace c =
    (leb 9 c && leb c 13)
    || (c == 32)
    || (c == 0x85)
    || (c == 0xA0)
    || (c == 0x1680)
    || (leb 0x2000 c && leb c 0x200A)
    || (c == 0x2028)
    || (c == 0x2029)
    || (c == 0x202F)
    || (c == 0x205F)
    || (c == 0x3000)

-- `split` by one character: a piece more than there are of it.
add_to_first : ℕ → List Text → List Text
add_to_first c [] = (c ∷ []) ∷ []
add_to_first c (piece ∷ pieces) = (c ∷ piece) ∷ pieces

unfoldable pub split : ℕ → Text → List Text
unfolding add_to_first
split sep [] = [] ∷ []
split sep (c ∷ s) = let rest = split sep s in if c == sep then [] ∷ rest else add_to_first c rest

trim_start : Text → Text
unfolding is_whitespace
trim_start [] = []
trim_start (c ∷ s) = let rest = trim_start s in if is_whitespace c then rest else c ∷ s

cons_unless_blank : ℕ → Text → Text
unfolding is_whitespace
cons_unless_blank c [] = if is_whitespace c then [] else c ∷ []
cons_unless_blank c (d ∷ s) = c ∷ d ∷ s

trim_end : Text → Text
unfolding cons_unless_blank
trim_end [] = []
trim_end (c ∷ s) = cons_unless_blank c (trim_end s)

unfoldable pub trim : Text → Text
unfolding trim_start trim_end
trim s = trim_end (trim_start s)

-- `split_once` at the first of it.
unfoldable pub split_once : ℕ → Text → Option (Text × Text)
split_once sep [] = none
split_once sep (c ∷ s) =
    let rest = split_once sep s in
    if c == sep then some ([], s) else elim rest [ none ↦ none | some (k, v) ↦ some (c ∷ k, v) ]

-- `str::parse::<u32>`: an optional plus sign, one digit at least, and no overflow.
read_digits : ℕ → Text → Option ℕ
read_digits acc [] = some acc
read_digits acc (c ∷ s) =
    let next = acc * 10 + (c - b'0') in
    let rest = read_digits next s in
    if leb b'0' c && leb c b'9' && leb next 4294967295 then rest else none

after_sign : Text → Option ℕ
unfolding read_digits
after_sign [] = none
after_sign (c ∷ s) = read_digits 0 (c ∷ s)

unfoldable pub parse_u32 : Text → Option ℕ
unfolding after_sign
parse_u32 [] = none
parse_u32 (c ∷ s) = if c == b'+' then after_sign s else after_sign (c ∷ s)

abbrev pub Dict : Type 0
Dict = List (Text × Text)

unfoldable pub dict_get : Text → Dict → Option Text
dict_get k [] = none
dict_get k ((j, v) ∷ m) = let rest = dict_get k m in if slice_eq j k then some v else rest

unfoldable pub dict_insert : Text → Text → Dict → Dict
dict_insert k v [] = (k, v) ∷ []
dict_insert k v ((j, w) ∷ m) =
    let rest = dict_insert k v m in if slice_eq j k then (k, v) ∷ m else (j, w) ∷ rest
