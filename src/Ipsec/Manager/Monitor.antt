-- ===== src/Ipsec/Manager/Monitor.antt =====
-- crates/eoip-rs/src/ipsec/monitor.rs: one check of the task, which runs it every 60 seconds.
use eo_ip_rs.Base.{
  if◌then◌else◌, Option-cases, Text, codes, map_get, ℕ, ◌≡◌, refl, ap, ◌∙◌, inl, inr, Bool, true,
  not, none, some, List, [], ◌∷◌, ◌++◌, append-nil, append_assoc, arith,
}
use eo_ip_rs.Proto.Types.Addr.{IpAddr}
use eo_ip_rs.Ipsec.Config.{Vici, IpsecTunnelConfig, conn_name, to_vici_initiate}
use eo_ip_rs.Ipsec.Manager.{IpsecManager, Answers, is_sa_established, reinitiate, call}

ids_of : {A : Type 0} → List (ℕ × A) → List ℕ
ids_of [] = []
ids_of ((tid, a) ∷ entries) = tid ∷ ids_of entries

module _ (v : Vici) (show_ip : IpAddr → Text) where
  -- What `has_established_sa` answers for a name, after the calls made so far.
  abbrev pub Reports : Type 0
  Reports = List (Text × v.Message) → Text → Bool

  unfoldable pub tunnel_ids : IpsecManager v show_ip → List ℕ
  unfolding ids_of
  tunnel_ids s = ids_of s.tunnels

  unfoldable pub check_one :
      Answers v show_ip → Reports → ℕ → IpsecManager v show_ip → IpsecManager v show_ip
  unfolding is_sa_established reinitiate
  check_one answers reports tid s =
      if not (is_sa_established v show_ip (reports s.calls) tid s)
      then reinitiate v show_ip answers tid s
      else s

  unfoldable pub check_ids :
      Answers v show_ip → Reports → List ℕ → IpsecManager v show_ip → IpsecManager v show_ip
  unfolding check_one
  check_ids answers reports [] s = s
  check_ids answers reports (tid ∷ ids) s =
      check_ids answers reports ids (check_one answers reports tid s)

  unfoldable pub check_and_reinitiate :
      Answers v show_ip → Reports → IpsecManager v show_ip → IpsecManager v show_ip
  unfolding check_ids tunnel_ids
  check_and_reinitiate answers reports s = check_ids answers reports (tunnel_ids s) s

  -- The call that is due for a tunnel of the table.
  abbrev pub due : (Text → Bool) → List (ℕ × IpsecTunnelConfig) → ℕ → List (Text × v.Message)
  due up tunnels tid = elim (map_get tid tunnels) [
    | none ↦ []
    | some cfg ↦
        if up (conn_name cfg) then [] else (codes "initiate", to_vici_initiate v show_ip cfg) ∷ []
  ]

  abbrev pub due_all :
      (Text → Bool) → List (ℕ × IpsecTunnelConfig) → List ℕ → List (Text × v.Message)
  due_all up tunnels [] = []
  due_all up tunnels (tid ∷ ids) = due up tunnels tid ++ due_all up tunnels ids

  check_one_lem :
      (answers : Answers v show_ip) (reports : Reports) (up : Text → Bool) (tid : ℕ)
      (s : IpsecManager v show_ip)
      → s.connected ≡ true
      → ((calls : List (Text × v.Message)) (name : Text) → reports calls name ≡ up name)
      → check_one answers reports tid s ≡ record s { calls = s.calls ++ due up s.tunnels tid }
  unfolding check_one is_sa_established reinitiate call
  check_one_lem answers reports up tid s on same = elim (Option-cases (map_get tid s.tunnels)) [
    | inl absent ↦ ground (arith, append-nil s.calls)
    | inr (cfg, found) ↦
        let at_calls = same s.calls (conn_name cfg) in ground (arith, append-nil s.calls)
  ]

  check_ids_lem :
      (answers : Answers v show_ip) (reports : Reports) (up : Text → Bool) (ids : List ℕ)
      (s : IpsecManager v show_ip)
      → s.connected ≡ true
      → ((calls : List (Text × v.Message)) (name : Text) → reports calls name ≡ up name)
      → check_ids answers reports ids s ≡ record s { calls = s.calls ++ due_all up s.tunnels ids }
  unfolding check_ids
  check_ids_lem answers reports up [] s on same = rw append-nil refl
  check_ids_lem answers reports up (tid ∷ ids) s on same =
      rw (check_one_lem answers reports up tid s on same) (
        check_ids_lem answers reports up ids (record s { calls = s.calls ++ due up s.tunnels tid })
          on same
        ∙ ap (λ calls. record s { calls = calls }) (append_assoc s.calls _ _))

  -- With a connection to strongSwan, and reports that stay the same during the check, a check calls
  -- `initiate` once for each tunnel of the table whose SA is not reported as established, in the
  -- order of the table's numbers, and changes nothing else.
  pub check_and_reinitiate_lem :
      (answers : Answers v show_ip) (reports : Reports) (up : Text → Bool)
      (s : IpsecManager v show_ip)
      → s.connected ≡ true
      → ((calls : List (Text × v.Message)) (name : Text) → reports calls name ≡ up name)
      → check_and_reinitiate answers reports s
        ≡ record s { calls = s.calls ++ due_all up s.tunnels (tunnel_ids s) }
  unfolding check_and_reinitiate
  check_and_reinitiate_lem answers reports up s on same =
      check_ids_lem answers reports up (tunnel_ids s) s on same
