-- ===== src/Tunnel/Handle.antt =====
-- crates/eoip-rs/src/tunnel/handle.rs. A handle is shared by the tasks of a tunnel through `Arc`: the
-- store maps each pointer to the handle behind it. `Sender` is the type of crossbeam's senders.
use eo_ip_rs.Base.{◌==◌, if◌then◌else◌, ℕ, ◌≡◌, ◌≢◌, Option, some, arith}
use eo_ip_rs.Proto.Types.{TunnelStats, new_stats}
use eo_ip_rs.Config.{TunnelConfig}
use eo_ip_rs.Tunnel.Lifecycle
use eo_ip_rs.Tunnel.Lifecycle.{initializing}

-- `state` is the number in the atomic cell.
pub record TunnelHandle (Sender : Type 0) : Type 0 where
  pub config : TunnelConfig
  pub state : ℕ
  pub stats : TunnelStats
  pub actual_mtu : ℕ
  pub rx_channel : Option Sender

-- `tx` is the sending end of the channel that the caller makes with the capacity asked for.
unfoldable pub with_channel_cap : {Sender : Type 0} → TunnelConfig → Sender → TunnelHandle Sender
unfolding Lifecycle.new new_stats
with_channel_cap config tx = record {
  config = config;
  state = Lifecycle.new initializing;
  stats = new_stats;
  actual_mtu = 0;
  rx_channel = some tx;
}

abbrev pub Store : Type 0 → Type 0
Store Sender = ℕ → TunnelHandle Sender

-- A write through a pointer.
unfoldable pub put : {Sender : Type 0} → ℕ → TunnelHandle Sender → Store Sender → Store Sender
put p h store = λ q. if q == p then h else store q

pub put_self :
    {Sender : Type 0} (p : ℕ) (h : TunnelHandle Sender) (store : Store Sender) → put p h store p ≡ h
unfolding put
put_self p h store = ground arith

pub put_other :
    {Sender : Type 0} (p q : ℕ) (h : TunnelHandle Sender) (store : Store Sender)
    → p ≢ q
    → put p h store q ≡ store q
unfolding put
put_other p q h store other = ground arith
