-- ===== src/Config/Checked.antt =====
-- What a configuration that passed validation guarantees to the code that uses it.
use eo_ip_rs.Base.{
  length, All, ok, err, >>=-eq-ok, slice_eq, Text, codes, ℕ, suc, ◌+◌, ◌≤◌, ◌≡◌, refl, ◌↔◌, ◌⊎◌,
  Bool, true, false, Option, none, some, List, [], ◌∷◌, ◌++◌, arith,
}
use native.Mathlib.Nat.{add-zero}
use eo_ip_rs.Proto.Types.Addr.{is_ipv4, is_ipv6}
use eo_ip_rs.Config.{
  TunnelConfig, Config, ConfigError, check_tunnel, check_tunnels, validate_config, bool_ne,
  check_iface_name,
}

-- The rules for a tunnel.
pub record IsSound (t : TunnelConfig) : Type 0 where
  pub same_family : is_ipv4 t.local ≡ is_ipv4 t.remote
  pub small_v6_id : is_ipv6 t.local ≡ true → t.tunnel_id ≤ 4095
  pub short_name : (name : Text) → t.iface_name ≡ some name → length name ≤ 15

sound_name :
    (i : ℕ) (o : Option Text)
    → check_iface_name i o ≡ ok tt
    → (name : Text) → o ≡ some name
    → length name ≤ 15
unfolding check_iface_name
sound_name i none h name e = cc
sound_name i (some n) h name e = ground arith

name_sound :
    (i : ℕ) (o : Option Text)
    → ((name : Text) → o ≡ some name → length name ≤ 15)
    → check_iface_name i o ≡ ok tt
unfolding check_iface_name
name_sound i none h = refl
name_sound i (some n) h = ground (arith, h n refl)

bool_ne-false : (a b : Bool) → bool_ne a b ≡ false → a ≡ b
unfolding bool_ne
bool_ne-false a b h = ground arith

bool_ne_self : (a b : Bool) → a ≡ b → bool_ne a b ≡ false
unfolding bool_ne
bool_ne_self a b h = ground arith

tunnel-IsSound : (i : ℕ) (t : TunnelConfig) → check_tunnel i t ≡ ok tt → IsSound t
unfolding check_tunnel
tunnel-IsSound i t h = record {
  same_family = ground (arith, bool_ne-false (is_ipv4 t.local) (is_ipv4 t.remote));
  small_v6_id = λ six. ground arith;
  short_name = sound_name i t.iface_name (ground arith);
}

sound_tunnel : (i : ℕ) (t : TunnelConfig) → IsSound t → check_tunnel i t ≡ ok tt
unfolding check_tunnel
sound_tunnel i t s = ground (
  arith,
  s.small_v6_id,
  bool_ne_self (is_ipv4 t.local) (is_ipv4 t.remote) s.same_family,
  name_sound i t.iface_name s.short_name,
)

tunnels-IsSound : (ts : List TunnelConfig) (i : ℕ) → check_tunnels i ts ≡ ok tt → All IsSound ts
unfolding check_tunnels
tunnels-IsSound [] i h = tt
tunnels-IsSound (t ∷ ts) i h =
    let (u, first, rest) = >>=-eq-ok (check_tunnel i t) _ h in
    (tunnel-IsSound i t first, tunnels-IsSound ts (suc i) rest)

sound_tunnels : (ts : List TunnelConfig) (i : ℕ) → All IsSound ts → check_tunnels i ts ≡ ok tt
unfolding check_tunnels
sound_tunnels [] i h = refl
sound_tunnels (t ∷ ts) i h = rw (sound_tunnel i t h.0) (sound_tunnels ts (suc i) h.1)

-- The two modes of the helper.
abbrev pub IsHelperMode : Text → Type 0
IsHelperMode mode = (slice_eq mode (codes "persist") ≡ true) ⊎ (slice_eq mode (codes "exit") ≡ true)

-- Validation accepts a configuration exactly if the helper's mode is one of the two and every tunnel
-- is sound: both ends of one address family, an id of at most 4095 over IPv6, an interface name of at
-- most 15 characters where one is given.
pub validate_config_iff :
    (c : Config)
    → (validate_config c ≡ ok tt) ↔ (IsHelperMode c.daemon.helper_mode × All IsSound c.tunnels)
validate_config_iff c = (
  λ h. (
    unfold validate_config in ground arith,
    tunnels-IsSound c.tunnels 0 (unfold validate_config in ground arith),
  ),
  λ h. unfold validate_config in ground (arith, sound_tunnels c.tunnels 0 h.1),
)

-- The error of a configuration names the first tunnel that is not sound: the tunnels before it are.
pub check_tunnels_first :
    (front : List TunnelConfig) (t : TunnelConfig) (back : List TunnelConfig) (i : ℕ)
    (e : ConfigError)
    → All IsSound front
    → check_tunnel (i + length front) t ≡ err e
    → check_tunnels i (front ++ t ∷ back) ≡ err e
unfolding check_tunnels
check_tunnels_first [] t back i e sound bad =
    let here : check_tunnel i t ≡ err e = rw add-zero at bad in rw here
check_tunnels_first (f ∷ front) t back i e sound bad =
    let same : suc i + length front ≡ i + suc (length front) = omega arith in
    rw (sound_tunnel i f sound.0) (check_tunnels_first front t back (suc i) e sound.1 (rw same bad))
