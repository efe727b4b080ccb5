-- ===== src/Tests/Machine.antt =====
-- A machine that runs the programs of the kernel's packet filter, for the tests.
use eo_ip_rs.Base.{
  ◌==◌, if◌then◌else◌, get_elem?, from_be_bytes, ℕ, zero, suc, ◌+◌, bit_and, ◌≡◌, refl, ◌∙◌, subst,
  Option, none, some, List, [], ◌∷◌, arith,
}
use mathlib.Core.Option.{some-injective}
use eo_ip_rs.Helper.Rawsock.{SockFilter, PacketFilter}

-- `go` runs what follows the instruction, behind as many instructions as skipped.
loaded : Option ℕ → (ℕ → ℕ) → ℕ
loaded none go = 0
loaded (some b) go = go b

half : Option ℕ → Option ℕ → Option ℕ
half (some hi) (some lo) = some (from_be_bytes hi lo)
half hi lo = none

obey : SockFilter → ℕ → List ℕ → (ℕ → ℕ → ℕ) → ℕ
unfolding loaded half
obey i a frame go =
    if i.code == 0x30
    then loaded (get_elem? frame i.k) (go 0)
    else if i.code == 0x28
    then loaded (half (get_elem? frame i.k) (get_elem? frame (suc i.k))) (go 0)
    else if i.code == 0x15
    then go (if a == i.k then i.jt else i.jf) a
    else if i.code == 0x45
    then go (if bit_and a i.k == 0 then i.jf else i.jt) a
    else if i.code == 0x06
    then i.k
    else 0

exec : List SockFilter → (skip a : ℕ) → List ℕ → ℕ
unfolding obey
exec [] skip a frame = 0
exec (i ∷ is) (suc skip) a frame = exec is skip a frame
exec (i ∷ is) zero a frame = obey i a frame (λ skip a. exec is skip a frame)

exec_step :
    (prog : List SockFilter) (pc a : ℕ) (i : SockFilter) (frame : List ℕ)
    → get_elem? prog pc ≡ some i
    → exec prog pc a frame ≡ obey i a frame (λ skip a. exec prog (suc pc + skip) a frame)
unfolding exec
exec_step [] pc a i frame e = cc
exec_step (j ∷ js) zero a i frame e =
    let shift : (skip : ℕ) → suc skip ≡ suc zero + skip = λ skip. omega arith in
    subst
      (λ i.
        obey j a frame (λ skip a. exec js skip a frame)
        ≡ obey i a frame (λ skip a. exec (j ∷ js) (suc zero + skip) a frame))
      (some-injective _ _ e) (λ t. obey j a frame (λ skip a. exec (j ∷ js) (shift skip t) a frame))
exec_step (j ∷ js) (suc pc) a i frame e =
    let shift : (skip : ℕ) → suc (suc pc + skip) ≡ suc (suc pc) + skip = λ skip. omega arith in
    exec_step js pc a i frame e
    ∙ (λ t. obey i a frame (λ skip a. exec (j ∷ js) (shift skip t) a frame))

pub machine : PacketFilter
unfolding obey loaded half
machine = record {
  bpf_run = exec;
  load_byte = λ prog pc a jt jf k b frame e f.
      let here : suc pc + 0 ≡ suc pc = omega arith in
      exec_step prog pc a _ frame e ∙ rw (f, here) refl;
  load_byte_behind = λ prog pc a jt jf k frame e f. exec_step prog pc a _ frame e ∙ rw f refl;
  load_half = λ prog pc a jt jf k hi lo frame e f g.
      let here : suc pc + 0 ≡ suc pc = omega arith in
      exec_step prog pc a _ frame e ∙ rw (f, g, here) refl;
  jump_equal = λ prog pc a jt jf k frame e. exec_step prog pc a _ frame e;
  jump_set = λ prog pc a jt jf k frame e. exec_step prog pc a _ frame e;
  return = λ prog pc a jt jf k frame e. exec_step prog pc a _ frame e;
}
