-- ===== src/Helper/Answers.antt =====
-- What the helper sends for one request, crates/eoip-helper/src/main.rs.
use eo_ip_rs.Base.{
  ltb, if◌then◌else◌, All, All-append, Result, ok, err, panic, Text, ℕ, ◌≡◌, refl, sym, ◌∙◌, ◌⊎◌,
  inl, inr, Bool, true, false, Option, none, some, List, [], ◌∷◌, ◌++◌, append-nil, append_assoc,
}
use eo_ip_rs.Proto.Wire.{HelperMsg, DaemonMsg}
use eo_ip_rs.Helper.{
  System, Helper, Step, and_then, send_msg, sent, open_v4, v6_socket, open_v6, raw_sockets,
  handle_create_tunnel, reported, message, persist_turn,
}

-- A message that the daemon's draining loop passes over.
unfoldable pub IsSkipped : HelperMsg × Option ℕ → Type 0
IsSkipped (HelperMsg.tap_created n t, fd) = ⊥
IsSkipped (HelperMsg.raw_socket f, fd) = Unit
IsSkipped (HelperMsg.error e, fd) = Unit
IsSkipped (HelperMsg.helper_ready, fd) = ⊥

-- One state's messages are another's and skipped ones.
abbrev Adds : Helper → Helper → Type 0
Adds s t = (more : List (HelperMsg × Option ℕ)) × (t.out ≡ s.out ++ more) × All IsSkipped more

Adds-refl : (s : Helper) → Adds s s
Adds-refl s = ([], sym (append-nil s.out), tt)

Adds-trans : (s t u : Helper) → Adds s t → Adds t u → Adds s u
Adds-trans s t u (xs, there, all_xs) (ys, here, all_ys) = (
  xs ++ ys,
  rw (here, there) (append_assoc s.out xs ys),
  All-append IsSkipped xs ys all_xs all_ys,
)

sent-Adds :
    (msg : HelperMsg) (fd : Option ℕ) (s : Helper) (r : Result (Unit {0}) Text)
    → IsSkipped (msg, fd)
    → Adds s (sent msg fd s r).0
unfolding sent
sent-Adds msg fd s (ok done) skipped = ((msg, fd) ∷ [], refl, (skipped, tt))
sent-Adds msg fd s (err e) skipped = Adds-refl s
sent-Adds msg fd s panic skipped = Adds-refl s

and_then-Adds :
    {A B : Type 0} (s : Helper) (t : Step A) (rest : A → Helper → Step B)
    → Adds s t.0
    → ((a : A) (u : Helper) → Adds u (rest a u).0)
    → Adds s (and_then t rest).0
and_then-Adds s (t, ok a) rest first later = Adds-trans s t (rest a t).0 first (later a t)
and_then-Adds s (t, err e) rest first later = first
and_then-Adds s (t, panic) rest first later = first

if-Adds :
    {A : Type 0} (b : Bool) (s : Helper) (t u : Step A)
    → Adds s t.0
    → Adds s u.0
    → Adds s (if b then t else u).0
if-Adds true s t u first second = first
if-Adds false s t u first second = second

open_v4-Adds : (sys : System) (s : Helper) → Adds s (open_v4 sys s).0
unfolding open_v4 send_msg IsSkipped
open_v4-Adds sys s = if-Adds s.raw_v4_created s _ _ (Adds-refl s) (
    and_then-Adds s (s, sys.raw_v4) _ (Adds-refl s)
      (λ fd u.
        and_then-Adds u _ _ (sent-Adds (HelperMsg.raw_socket 2) (some fd) u _ tt)
          (λ done w. Adds-refl w)))

v6_socket-Adds : (sys : System) (s : Helper) (r : Result ℕ Text) → Adds s (v6_socket sys s r).0
unfolding v6_socket send_msg IsSkipped
v6_socket-Adds sys s (ok fd) =
    and_then-Adds s _ _ (sent-Adds (HelperMsg.raw_socket 10) (some fd) s _ tt)
      (λ done w. Adds-refl w)
v6_socket-Adds sys s (err e) = sent-Adds _ none s _ tt
v6_socket-Adds sys s panic = Adds-refl s

open_v6-Adds : (sys : System) (s : Helper) → Adds s (open_v6 sys s).0
unfolding open_v6
open_v6-Adds sys s = if-Adds s.raw_v6_created s _ _ (Adds-refl s) (v6_socket-Adds sys s sys.raw_v6)

raw_sockets-Adds : (sys : System) (s : Helper) → Adds s (raw_sockets sys s).0
unfolding raw_sockets
raw_sockets-Adds sys s = and_then-Adds s _ _ (open_v4-Adds sys s) (λ done w. open_v6-Adds sys w)

reported-Adds : (sys : System) (t : Step (Unit {0})) → Adds t.0 (reported sys t)
unfolding reported send_msg IsSkipped
reported-Adds sys (s, ok done) = Adds-refl s
reported-Adds sys (s, err e) = sent-Adds (HelperMsg.error e) none s _ tt
reported-Adds sys (s, panic) = Adds-refl s

-- What a request's answers look like: skipped messages, behind a `TapCreated` if there is one.
unfoldable pub IsAnswer : Text → ℕ → List (HelperMsg × Option ℕ) → Type 0
IsAnswer name id out =
    All IsSkipped out
    ⊎ ((fd : ℕ) × (more : List (HelperMsg × Option ℕ)) × (out
          ≡ (HelperMsg.tap_created name id, some fd) ∷ more)
        × All IsSkipped more)

Adds-IsAnswer :
    (name : Text) (id : ℕ) (s t : Helper)
    → Adds s t
    → IsAnswer name id s.out
    → IsAnswer name id t.out
unfolding IsAnswer
Adds-IsAnswer name id s t (more, there, skipped) (inl all_skipped) =
    inl (rw there (All-append IsSkipped s.out more all_skipped skipped))
Adds-IsAnswer name id s t (more, there, skipped) (inr (fd, front, shape, all_skipped)) =
    inr (
      fd,
      front ++ more,
      there ∙ rw shape refl,
      All-append IsSkipped front more all_skipped skipped,
    )

request-IsAnswer :
    (sys : System) (name : Text) (id : ℕ) (h : Helper) (tap : Result ℕ Text)
    (mtu_set tap_sent : Result (Unit {0}) Text)
    → h.out ≡ []
    → IsAnswer name id
        (and_then
          (h, tap)
          (λ fd s.
            and_then
              (s, mtu_set)
              (λ done s.
                and_then
                  (sent (HelperMsg.tap_created name id) (some fd) s tap_sent)
                  (λ done s. raw_sockets sys s)))).0.out
unfolding IsAnswer sent
request-IsAnswer sys name id h (err e) mtu_set tap_sent empty = inl (rw empty tt)
request-IsAnswer sys name id h panic mtu_set tap_sent empty = inl (rw empty tt)
request-IsAnswer sys name id h (ok fd) (err e) tap_sent empty = inl (rw empty tt)
request-IsAnswer sys name id h (ok fd) panic tap_sent empty = inl (rw empty tt)
request-IsAnswer sys name id h (ok fd) (ok done) (err e) empty = inl (rw empty tt)
request-IsAnswer sys name id h (ok fd) (ok done) panic empty = inl (rw empty tt)
request-IsAnswer sys name id h (ok fd) (ok done) (ok sent) empty =
    let t : Helper = record h { out = h.out ++ (HelperMsg.tap_created name id, some fd) ∷ [] } in
    Adds-IsAnswer name id t (raw_sockets sys t).0 (raw_sockets-Adds sys t)
      (inr (fd, [], rw empty refl, tt))

-- One turn of the helper's loop for a request, from no message on: its answers are messages that the
-- draining passes over, behind at most one `TapCreated`.
pub persist_turn-IsAnswer :
    (sys : System) (name : Text) (id mtu : ℕ) (clamp : Bool) (h : Helper)
    → h.out ≡ []
    → IsAnswer name id
        (persist_turn sys (message (DaemonMsg.create_tunnel name id mtu clamp)) h).0.out
unfolding persist_turn handle_create_tunnel send_msg
persist_turn-IsAnswer sys name id mtu clamp h empty =
    let t = handle_create_tunnel sys name id mtu h in
    Adds-IsAnswer name id t.0 (reported sys t) (reported-Adds sys t) (
      request-IsAnswer sys name id h (sys.create_tap name)
        (if ltb 0 mtu then sys.set_mtu name mtu else ok tt)
        (sys.send (HelperMsg.tap_created name id)) empty)
