-- ===== src/Ipsec/Vici/Unique.antt =====
-- What the search through the events of list-sas takes for an established SA.
use eo_ip_rs.Base.{
  slice_eq, Text, codes, ℕ, ◌≡◌, refl, Bool, true, false, List, [], ◌∷◌, ◌++◌, arith,
}
use eo_ip_rs.Ipsec.Vici.{
  Element, section_start, key_value, other, sa_element, sa_elements, sa_events, has_established_sa,
}

slice_eq_refl : (xs : Text) → slice_eq xs xs ≡ true
slice_eq_refl [] = refl
slice_eq_refl (x ∷ xs) = ground (arith, slice_eq_refl xs)

module _ (lossy : List ℕ → Text) (name : Text) where
  sa_elements-append :
      (xs ys : List Element) (seen : Bool × Bool)
      → sa_elements lossy name (xs ++ ys) seen
        ≡ sa_elements lossy name ys (sa_elements lossy name xs seen)
  unfolding sa_elements
  sa_elements-append [] ys seen = refl
  sa_elements-append (x ∷ xs) ys seen = sa_elements-append xs ys (sa_element lossy name x seen)

  -- An element only ever sets the flags.
  element_found : (el : Element) (b : Bool) → (sa_element lossy name el (b, true)).1 ≡ true
  unfolding sa_element
  element_found (section_start n) b = refl
  element_found (key_value k v) b = refl
  element_found other b = refl

  elements_found :
      (xs : List Element) (seen : Bool × Bool)
      → seen.1 ≡ true
      → (sa_elements lossy name xs seen).1 ≡ true
  unfolding sa_elements
  elements_found [] seen found = found
  elements_found (x ∷ xs) (b, false) found = absurd cc
  elements_found (x ∷ xs) (b, true) found =
      elements_found xs (sa_element lossy name x (b, true)) (element_found x b)

  element_in : (el : Element) (b : Bool) → (sa_element lossy name el (true, b)).0 ≡ true
  unfolding sa_element
  element_in (section_start n) b = ground arith
  element_in (key_value k v) b = refl
  element_in other b = refl

  elements_in :
      (xs : List Element) (seen : Bool × Bool)
      → seen.0 ≡ true
      → (sa_elements lossy name xs seen).0 ≡ true
  unfolding sa_elements
  elements_in [] seen inside = inside
  elements_in (x ∷ xs) (false, b) inside = absurd cc
  elements_in (x ∷ xs) (true, b) inside =
      elements_in xs (sa_element lossy name x (true, b)) (element_in x b)

  start_in : (seen : Bool × Bool) → (sa_element lossy name (section_start name) seen).0 ≡ true
  unfolding sa_element
  start_in (b, found) = rw (slice_eq_refl name) refl

  at_uniqueid :
      (v : List ℕ) (seen : Bool × Bool)
      → seen.0 ≡ true
      → (sa_element lossy name (key_value (codes "uniqueid") v) seen).1 ≡ true
  unfolding sa_element
  at_uniqueid v (true, false) inside = ground arith
  at_uniqueid v (true, true) inside = refl
  at_uniqueid v (false, b) inside = absurd cc

  events_found : (events : List (List Element)) → sa_events lossy name events true ≡ true
  unfolding sa_events
  events_found [] = refl
  events_found (event ∷ events) = rw (elements_found event (false, true) refl) (events_found events)

  -- An event with the section of the connection and, somewhere behind its start, a unique id counts.
  event_found :
      (pre mid post : List Element) (v : List ℕ) (found : Bool)
      → (sa_elements lossy name
          (pre ++ section_start name ∷ (mid ++ key_value (codes "uniqueid") v ∷ post))
          (false, found)).1
        ≡ true
  unfolding sa_elements
  event_found pre mid post v found =
      let behind = sa_elements lossy name pre (false, found) in
      let started = sa_element lossy name (section_start name) behind in
      let inside : (started.0 ≡ true) = start_in behind in
      rw
        (
          sa_elements-append pre
              (section_start name ∷ (mid ++ key_value (codes "uniqueid") v ∷ post)) (false, found),
          sa_elements-append mid (key_value (codes "uniqueid") v ∷ post) started,
        )
        (elements_found post _
          (at_uniqueid v (sa_elements lossy name mid started) (elements_in mid started inside)))

  sa_events-mem :
      (before later : List (List Element)) (event : List Element) (found : Bool)
      → ((b : Bool) → (sa_elements lossy name event (false, b)).1 ≡ true)
      → sa_events lossy name (before ++ event ∷ later) found ≡ true
  unfolding sa_events
  sa_events-mem [] later event found counts = rw (sa_events, counts found) (events_found later)
  sa_events-mem (e ∷ before) later event found counts =
      sa_events-mem before later event (sa_elements lossy name e (false, found)).1 counts

  -- Whatever else the events say, the state included, one event that has the section of the
  -- connection and a unique id behind its start makes the search answer that an SA is established.
  pub has_established_sa-unique_id :
      (before later : List (List Element)) (pre mid post : List Element) (v : List ℕ)
      → has_established_sa lossy name (
          before
          ++ (pre ++ section_start name ∷ (mid ++ key_value (codes "uniqueid") v ∷ post)) ∷ later)
        ≡ true
  unfolding has_established_sa
  has_established_sa-unique_id before later pre mid post v =
      sa_events-mem before later
        (pre ++ section_start name ∷ (mid ++ key_value (codes "uniqueid") v ∷ post)) false
        (event_found pre mid post v)
