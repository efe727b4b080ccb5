-- ===== src/Helper/Rawsock.antt =====
-- crates/eoip-helper/src/rawsock.rs: the filter of the AF_PACKET socket, as a program for the kernel's
-- packet filter. The machine that runs it is the kernel's and a parameter, by what bpf(4) says of the
-- five instructions that the program has. Opening the sockets and their options are system calls.
pub mod Filter
use eo_ip_rs.Base.{
  ltb, ◌==◌, if◌then◌else◌, get_elem?, from_be_bytes, ℕ, suc, ◌+◌, bit_and, ◌≡◌, Option, none, some,
  List, [], ◌∷◌,
}

pub record SockFilter : Type 0 where
  pub code : ℕ
  pub jt : ℕ
  pub jf : ℕ
  pub k : ℕ

unfoldable pub filter : List SockFilter
filter =
    record { code = 0x30; jt = 0; jf = 0; k = 23 }
    ∷ record { code = 0x15; jt = 3; jf = 0; k = 47 }
    ∷ record { code = 0x28; jt = 0; jf = 0; k = 20 }
    ∷ record { code = 0x45; jt = 1; jf = 0; k = 0x1FFF }
    ∷ record { code = 0x06; jt = 0; jf = 0; k = 0 }
    ∷ record { code = 0x06; jt = 0; jf = 0; k = 0xFFFF }
    ∷ []

-- The bytes of a frame that the program lets through, from the instruction `pc` on with `a` in the
-- accumulator: 0 drops the frame. A load from behind the end of the frame drops it.
pub record PacketFilter : Type 0 where
  pub bpf_run : List SockFilter → (pc a : ℕ) → List ℕ → ℕ
  pub load_byte :
      (prog : List SockFilter) (pc a jt jf k b : ℕ) (frame : List ℕ)
      → get_elem? prog pc ≡ some (record { code = 0x30; jt = jt; jf = jf; k = k })
      → get_elem? frame k ≡ some b
      → bpf_run prog pc a frame ≡ bpf_run prog (suc pc) b frame
  pub load_byte_behind :
      (prog : List SockFilter) (pc a jt jf k : ℕ) (frame : List ℕ)
      → get_elem? prog pc ≡ some (record { code = 0x30; jt = jt; jf = jf; k = k })
      → get_elem? frame k ≡ none
      → bpf_run prog pc a frame ≡ 0
  pub load_half :
      (prog : List SockFilter) (pc a jt jf k hi lo : ℕ) (frame : List ℕ)
      → get_elem? prog pc ≡ some (record { code = 0x28; jt = jt; jf = jf; k = k })
      → get_elem? frame k ≡ some hi
      → get_elem? frame (suc k) ≡ some lo
      → bpf_run prog pc a frame ≡ bpf_run prog (suc pc) (from_be_bytes hi lo) frame
  pub jump_equal :
      (prog : List SockFilter) (pc a jt jf k : ℕ) (frame : List ℕ)
      → get_elem? prog pc ≡ some (record { code = 0x15; jt = jt; jf = jf; k = k })
      → bpf_run prog pc a frame ≡ bpf_run prog (suc pc + (if a == k then jt else jf)) a frame
  pub jump_set :
      (prog : List SockFilter) (pc a jt jf k : ℕ) (frame : List ℕ)
      → get_elem? prog pc ≡ some (record { code = 0x45; jt = jt; jf = jf; k = k })
      → bpf_run prog pc a frame
        ≡ bpf_run prog (suc pc + (if bit_and a k == 0 then jf else jt)) a frame
  pub return :
      (prog : List SockFilter) (pc a jt jf k : ℕ) (frame : List ℕ)
      → get_elem? prog pc ≡ some (record { code = 0x06; jt = jt; jf = jf; k = k })
      → bpf_run prog pc a frame ≡ k

-- What `create_af_packet_socket_v4` attaches to the socket: the frames of which the kernel keeps bytes.
unfoldable pub attached : PacketFilter → List ℕ → ℕ
unfolding filter
attached m frame = m.bpf_run filter 0 0 frame
