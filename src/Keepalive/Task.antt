-- ===== src/Keepalive/Task.antt =====
-- `spawn_keepalive_task` of crates/eoip-rs/src/keepalive.rs: the loop of the task, over what happens
-- while it runs. The first tick of the timer, which comes at once, is taken before the loop.
pub mod Ticks
use eo_ip_rs.Base.{
  ltb, leb, ◌==◌, if◌then◌else◌, ltb→lt, lt→ltb, ==_iff, Bool-cases, List-cases, Option-cases,
  le→not_ltb, not_leb→lt, le→leb, lt→not_leb, not_ltb→le, length, get_elem?, take, drop, replicate,
  All, length-append, take-append-drop, length-take, length-drop, length-replicate, take_all,
  take-append_length, drop-append_length, All-append, All-drop, Result, ok, err, panic, ◌>>=◌, ◌>>◌,
  reject_if, map_err, Result-cases, >>=-eq-ok, index, slice_to, slice_from, slice, slice_to_lem,
  slice_from_lem, slice_lem, slice_backwards, copy_at, slice_eq, length-copy_at, copy_at-zero,
  drop-copy_at, IsByte, IsU16, as_u8, as_u16, add_u64, from_be_bytes, from_le_bytes, to_be_bytes,
  to_le_bytes, low_nibble, low_twelve_bits, low_byte, nibble_or_byte, nibble_or_three, Text, codes,
  show_nat, hex_digit, map_get, map_remove, map_insert, map_get-map_remove, map_get-map_insert,
  map_remove_absent, map_remove-map_remove, ℕ, zero, suc, ◌+◌, ◌-◌, ◌*◌, ◌/◌, ◌%◌, ◌^◌, ◌≤◌, ◌<◌,
  min, max, bit_and, bit_or, ◌≡◌, refl, sym, ap, ◌∙◌, subst, ◌≢◌, ◌↔◌, ◌⊎◌, inl, inr, Bool, true,
  false, ◌&&◌, ◌||◌, not, Option, none, some, List, [], ◌∷◌, ◌++◌, map, append-nil, append_assoc,
  arith,
}
use eo_ip_rs.Proto.Types.Addr.{IpAddr}
use eo_ip_rs.Packet.Tx.{IoError, send_keepalive}
use eo_ip_rs.Keepalive.{check_stale}

-- Shutdown is seen; a tick at a time, with the error of the socket if it refuses the packet; or other
-- threads have changed the state or the time of the last packet received.
pub data Happening : Type 0 where
  stopped : Happening
  tick : (now : ℕ) (refused : Option IoError) → Happening
  others : (cell last_rx : ℕ) → Happening

-- The cell of the state, the time of the last packet received, and how the keepalives went, in order.
pub record Watched : Type 0 where
  pub cell : ℕ
  pub last_rx : ℕ
  pub sent : List (Result (Unit {0}) IoError)

pub answer_of : Option IoError → Result (Unit {0}) IoError
answer_of none = ok tt
answer_of (some e) = err e

module _ (remote : IpAddr) (tunnel_id timeout_secs : ℕ) where
  -- The state is looked at also after an error of the sending.
  ticked : ℕ → Result (Unit {0}) IoError → Watched → Result Watched IoError
  ticked now panic s = panic
  ticked now (err e) s = ok (record s {
    cell = check_stale s.last_rx now timeout_secs s.cell s.cell;
    sent = s.sent ++ err e ∷ [];
  })
  ticked now (ok t) s = ok (record s {
    cell = check_stale s.last_rx now timeout_secs s.cell s.cell;
    sent = s.sent ++ ok t ∷ [];
  })

  unfoldable pub spawn_keepalive_task : List Happening → Watched → Result Watched IoError
  unfolding ticked answer_of
  spawn_keepalive_task [] s = ok s
  spawn_keepalive_task (stopped ∷ rest) s = ok s
  spawn_keepalive_task (others cell last_rx ∷ rest) s =
      spawn_keepalive_task rest (record s { cell = cell; last_rx = last_rx })
  spawn_keepalive_task (tick now refused ∷ rest) s =
      ticked now (send_keepalive (λ packet dest. answer_of refused) remote tunnel_id) s
      >>= spawn_keepalive_task rest
