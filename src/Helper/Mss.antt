-- ===== src/Helper/Mss.antt =====
-- crates/eoip-helper/src/mss.rs. The program iptables is a parameter, by what its manual says of `-C`
-- and `-A` for a rule; the rules are those of the chain FORWARD in the table mangle.
use eo_ip_rs.Base.{
  Result, ok, err, panic, Text, codes, ◌≡◌, refl, sym, ap, ◌∙◌, subst, ◌⊎◌, inl, inr, Bool, true,
  false, List, [], ◌∷◌, ◌++◌,
}
use mathlib.Core.List.{Memᴰ}

-- The rule that is checked, added and removed, behind the command and the chain.
unfoldable pub rule_of : Text → List Text
rule_of iface =
    codes "-o"
    ∷ iface
    ∷ codes "-p"
    ∷ codes "tcp"
    ∷ codes "--tcp-flags"
    ∷ codes "SYN,RST"
    ∷ codes "SYN"
    ∷ codes "-j"
    ∷ codes "TCPMSS"
    ∷ codes "--clamp-mss-to-pmtu"
    ∷ []

-- The arguments of a call: the table, the command on the chain, and the rule.
abbrev pub args : Text → List Text → List Text
args command rule = codes "-t" ∷ codes "mangle" ∷ command ∷ codes "FORWARD" ∷ rule

-- A call leaves a table, and gives `ok true` on success, `ok false` with another exit status, or `err e`
-- where the program cannot be started.
pub record Iptables : Type 1 where
  pub Table : Type 0
  pub rules : Table → List (List Text)
  pub call_with : List Text → Table → Table × Result Bool Text
  pub check_keeps : (rule : List Text) (t : Table) → (call_with (args (codes "-C") rule) t).0 ≡ t
  pub check_found :
      (rule : List Text) (t : Table)
      → (call_with (args (codes "-C") rule) t).1 ≡ ok true
      → Memᴰ rule (rules t)
  pub append_done :
      (rule : List Text) (t : Table)
      → (call_with (args (codes "-A") rule) t).1 ≡ ok true
      → rules (call_with (args (codes "-A") rule) t).0 ≡ rules t ++ rule ∷ []

module _ (tool : Iptables) where
  -- The result of adding; the text behind the error's own is what iptables printed.
  appended : tool.Table × Result Bool Text → tool.Table × Result (Unit {0}) Text
  appended (t, ok true) = (t, ok tt)
  appended (t, ok false) = (t, err (codes "iptables add MSS rule failed: "))
  appended (t, err e) = (t, err e)
  appended (t, panic) = (t, panic)

  checked : Text → tool.Table × Result Bool Text → tool.Table × Result (Unit {0}) Text
  unfolding appended
  checked iface (t, ok true) = (t, ok tt)
  checked iface (t, ok false) = appended (tool.call_with (args (codes "-A") (rule_of iface)) t)
  checked iface (t, err e) = (t, err e)
  checked iface (t, panic) = (t, panic)

  unfoldable pub add_mss_clamp_rule : Text → tool.Table → tool.Table × Result (Unit {0}) Text
  unfolding checked
  add_mss_clamp_rule iface t = checked iface (tool.call_with (args (codes "-C") (rule_of iface)) t)

  removed : tool.Table × Result Bool Text → tool.Table × Result (Unit {0}) Text
  removed (t, ok success) = (t, ok tt)
  removed (t, err e) = (t, err e)
  removed (t, panic) = (t, panic)

  unfoldable pub remove_mss_clamp_rule : Text → tool.Table → tool.Table × Result (Unit {0}) Text
  unfolding removed
  remove_mss_clamp_rule iface t = removed (tool.call_with (args (codes "-D") (rule_of iface)) t)

  last-Memᴰ : (rule : List Text) (rules : List (List Text)) → Memᴰ rule (rules ++ rule ∷ [])
  last-Memᴰ rule [] = Memᴰ.head refl
  last-Memᴰ rule (r ∷ rules) = Memᴰ.tail (last-Memᴰ rule rules)

  appended-ok :
      (x : tool.Table × Result Bool Text)
      → (appended x).1 ≡ ok tt
      → (x.1 ≡ ok true) × ((appended x).0 ≡ x.0)
  unfolding appended
  appended-ok (t, ok true) done = (refl, refl)
  appended-ok (t, ok false) done = cc
  appended-ok (t, err e) done = cc
  appended-ok (t, panic) done = cc

  checked-ok :
      (iface : Text) (x : tool.Table × Result Bool Text)
      → (checked iface x).1 ≡ ok tt
      → ((x.1 ≡ ok true) × ((checked iface x).0 ≡ x.0))
        ⊎ (checked iface x ≡ appended (tool.call_with (args (codes "-A") (rule_of iface)) x.0))
  unfolding appended checked
  checked-ok iface (t, ok true) done = inl (refl, refl)
  checked-ok iface (t, ok false) done = inr refl
  checked-ok iface (t, err e) done = cc
  checked-ok iface (t, panic) done = cc

  -- If adding the rule succeeds, the rule is there afterwards, and the other rules are as before: the
  -- rule was there and nothing has changed, or it is the one new rule at the end.
  pub add_mss_clamp_rule_lem :
      (iface : Text) (t : tool.Table)
      → (add_mss_clamp_rule iface t).1 ≡ ok tt
      → Memᴰ (rule_of iface) (tool.rules (add_mss_clamp_rule iface t).0)
        × (((add_mss_clamp_rule iface t).0 ≡ t)
            ⊎ (tool.rules (add_mss_clamp_rule iface t).0 ≡ tool.rules t ++ rule_of iface ∷ []))
  unfolding add_mss_clamp_rule
  add_mss_clamp_rule_lem iface t done =
      let rule = rule_of iface in
      let x = tool.call_with (args (codes "-C") rule) t in
      let y = tool.call_with (args (codes "-A") rule) x.0 in
      elim (checked-ok iface x done) [
        | inl (found, same) ↦
            let unchanged = same ∙ tool.check_keeps rule t in
            (
              subst (λ u. Memᴰ rule (tool.rules u)) (sym unchanged) (tool.check_found rule t found),
              inl unchanged,
            )
        | inr asked ↦
            let (added, same) = appended-ok y (ap (λ z. z.1) (sym asked) ∙ done) in
            let now =
              ap tool.rules (ap (λ z. z.0) asked ∙ same)
              ∙ (tool.append_done rule x.0 added
                  ∙ ap (λ u. tool.rules u ++ rule ∷ []) (tool.check_keeps rule t)) in
            (subst (Memᴰ rule) (sym now) (last-Memᴰ rule (tool.rules t)), inr now)
      ]
