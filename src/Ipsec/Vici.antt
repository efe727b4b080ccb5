-- ===== src/Ipsec/Vici.antt =====
-- The parts of crates/eoip-rs/src/ipsec/vici.rs that read messages. The package's messages are lists
-- of elements, of which the code tells three kinds apart; `lossy` is `String::from_utf8_lossy`.
pub mod Unique
use eo_ip_rs.Base.{
  if◌then◌else◌, Result, ok, err, slice_eq, Text, codes, ℕ, Bool, false, ◌&&◌, ◌||◌, Option, none,
  some, List, [], ◌∷◌, ◌++◌,
}

pub data Element : Type 0 where
  section_start : Text → Element
  key_value : Text → List ℕ → Element
  other : Element

unwrap_or : Text → Option Text → Text
unwrap_or fallback none = fallback
unwrap_or fallback (some t) = t

is_text : Text → Option Text → Bool
is_text t none = false
is_text t (some u) = slice_eq u t

-- `success` and `errmsg` of a response.
pub record Answer : Type 0 where
  pub success : Option Text
  pub errmsg : Option Text

module _ (lossy : List ℕ → Text) where
  noted : Element → Answer → Answer
  noted (section_start name) a = a
  noted other a = a
  noted (key_value k v) a =
      if slice_eq k (codes "success")
      then record a { success = some (lossy v) }
      else if slice_eq k (codes "errmsg")
      then record a { errmsg = some (lossy v) }
      else a

  scan : List Element → Answer → Answer
  unfolding noted
  scan [] a = a
  scan (el ∷ elements) a = scan elements (noted el a)

  unfoldable pub check_vici_response : Text → List Element → Result (Unit {0}) Text
  unfolding scan is_text unwrap_or
  check_vici_response command elements =
      let a = scan elements (record { success = none; errmsg = none }) in
      if is_text (codes "yes") a.success
      then ok tt
      else if is_text (codes "no") a.success
      then err (
          codes "VICI "
          ++ (command ++ (codes " failed: " ++ unwrap_or (codes "unknown error") a.errmsg)))
      else ok tt

  is_up : Text → Bool
  is_up state = slice_eq state (codes "ESTABLISHED") || slice_eq state (codes "INSTALLED")

  -- `in_conn` and `found` after an element of an event.
  unfoldable pub sa_element : Text → Element → Bool × Bool → Bool × Bool
  unfolding is_up
  sa_element conn_name other (in_conn, found) = (in_conn, found)
  sa_element conn_name (section_start name) (in_conn, found) =
      (slice_eq name conn_name || in_conn, found)
  sa_element conn_name (key_value k v) (in_conn, found) = (
    in_conn,
    found
        || (slice_eq k (codes "state") && is_up (lossy v))
        || (in_conn && slice_eq k (codes "uniqueid")),
  )

  unfoldable pub sa_elements : Text → List Element → Bool × Bool → Bool × Bool
  unfolding sa_element
  sa_elements conn_name [] seen = seen
  sa_elements conn_name (el ∷ elements) seen =
      sa_elements conn_name elements (sa_element conn_name el seen)

  sa_events : Text → List (List Element) → Bool → Bool
  unfolding sa_elements
  sa_events conn_name [] found = found
  sa_events conn_name (event ∷ events) found =
      sa_events conn_name events (sa_elements conn_name event (false, found)).1

  -- `events` are those that `list-sas` streams for the name, also where the call then fails.
  unfoldable pub has_established_sa : Text → List (List Element) → Bool
  unfolding sa_events
  has_established_sa conn_name events = sa_events conn_name events false
