-- ===== src/Base/Slices.antt =====
-- Byte slices: indexing and slicing that panic out of range, and `copy_from_slice`.
use Prim.Native.Nat.{ℕ, zero, suc, ◌+◌, ◌-◌, ◌≤◌, ◌<◌}
use mathlib.Core.Path.{◌≡◌, refl, ap}
use mathlib.Core.Bool.{Bool, true, false, ◌&&◌}
use mathlib.Core.List.{List, [], ◌∷◌, ◌++◌}
use native.Mathlib.Omega.{arith}
use native.Mathlib.Nat.{sub-zero, suc-add, zero-add}
use eo_ip_rs.Base.Tests.{◌==◌}
use eo_ip_rs.Base.Lists.{length, take, drop}
use eo_ip_rs.Base.Outcome.{Result, ok, panic, ◌>>=◌}

module _ {κ} {E : Type κ} where
  -- `buf[i]`
  abbrev pub index : List ℕ → ℕ → Result ℕ E
  index [] i = panic
  index (x ∷ xs) zero = ok x
  index (x ∷ xs) (suc i) = index xs i

  -- `&buf[..n]`
  abbrev pub slice_to : List ℕ → ℕ → Result (List ℕ) E
  slice_to xs zero = ok []
  slice_to [] (suc n) = panic
  slice_to (x ∷ xs) (suc n) = slice_to xs n >>= λ ys. ok (x ∷ ys)

  -- `&buf[lo..]`
  abbrev pub slice_from : List ℕ → ℕ → Result (List ℕ) E
  slice_from xs zero = ok xs
  slice_from [] (suc n) = panic
  slice_from (x ∷ xs) (suc n) = slice_from xs n

  -- `&buf[lo..hi]`
  abbrev pub slice : List ℕ → ℕ → ℕ → Result (List ℕ) E
  slice xs zero hi = slice_to xs hi
  slice xs (suc lo) zero = panic
  slice [] (suc lo) (suc hi) = panic
  slice (x ∷ xs) (suc lo) (suc hi) = slice xs lo hi

  pub slice_to_lem : (xs : List ℕ) (n : ℕ) → n ≤ length xs → slice_to xs n ≡ ok (take n xs)
  slice_to_lem xs zero h = refl
  slice_to_lem [] (suc n) h = absurd (omega arith)
  slice_to_lem (x ∷ xs) (suc n) h = ground (arith, slice_to_lem xs n)

  pub slice_from_lem : (xs : List ℕ) (n : ℕ) → n ≤ length xs → slice_from xs n ≡ ok (drop n xs)
  slice_from_lem xs zero h = refl
  slice_from_lem [] (suc n) h = absurd (omega arith)
  slice_from_lem (x ∷ xs) (suc n) h = slice_from_lem xs n (omega arith)

  pub slice_lem :
      (xs : List ℕ) (lo hi : ℕ)
      → lo ≤ hi
      → hi ≤ length xs
      → slice xs lo hi ≡ ok (take (hi - lo) (drop lo xs))
  slice_lem xs zero hi h k = rw sub-zero (slice_to_lem xs hi k)
  slice_lem xs (suc lo) zero h k = absurd (omega arith)
  slice_lem [] (suc lo) (suc hi) h k = absurd (omega arith)
  slice_lem (x ∷ xs) (suc lo) (suc hi) h k =
      let shorter : suc hi - suc lo ≡ hi - lo = omega arith in
      rw shorter (slice_lem xs lo hi (omega arith) (omega arith))

  -- A slice whose start is past its end panics.
  pub slice_backwards : (xs : List ℕ) (lo hi : ℕ) → hi < lo → slice xs lo hi ≡ panic
  slice_backwards xs zero hi h = absurd (omega arith)
  slice_backwards xs (suc lo) zero h = refl
  slice_backwards [] (suc lo) (suc hi) h = refl
  slice_backwards (x ∷ xs) (suc lo) (suc hi) h = slice_backwards xs lo hi (omega arith)

-- `buf[off..off + src.len()].copy_from_slice(src)`, where the range lies in `buf`.
abbrev pub copy_at : ℕ → List ℕ → List ℕ → List ℕ
copy_at zero [] buf = buf
copy_at zero (s ∷ ss) [] = []
copy_at zero (s ∷ ss) (b ∷ bs) = s ∷ copy_at zero ss bs
copy_at (suc n) src [] = []
copy_at (suc n) src (b ∷ bs) = b ∷ copy_at n src bs

-- `==` on slices.
abbrev pub slice_eq : List ℕ → List ℕ → Bool
slice_eq [] [] = true
slice_eq [] (y ∷ ys) = false
slice_eq (x ∷ xs) [] = false
slice_eq (x ∷ xs) (y ∷ ys) = x == y && slice_eq xs ys

pub length-copy_at : (n : ℕ) (src buf : List ℕ) → length (copy_at n src buf) ≡ length buf
length-copy_at zero [] buf = refl
length-copy_at zero (s ∷ ss) [] = refl
length-copy_at zero (s ∷ ss) (b ∷ bs) = ap suc (length-copy_at zero ss bs)
length-copy_at (suc n) src [] = refl
length-copy_at (suc n) src (b ∷ bs) = ap suc (length-copy_at n src bs)

-- What a copy writes is read back at its place, and what stands in front of it and behind it stays.
pub copy_at-zero :
    (src buf : List ℕ)
    → length src ≤ length buf
    → copy_at zero src buf ≡ src ++ drop (length src) buf
copy_at-zero [] buf h = refl
copy_at-zero (s ∷ ss) [] h = absurd (omega arith)
copy_at-zero (s ∷ ss) (b ∷ bs) h = ap (λ t. s ∷ t) (copy_at-zero ss bs (omega arith))

pub drop-copy_at :
    (n : ℕ) (src buf : List ℕ)
    → n + length src ≤ length buf
    → drop n (copy_at n src buf) ≡ src ++ drop (n + length src) buf
drop-copy_at zero src buf h = rw zero-add (copy_at-zero src buf (omega arith))
drop-copy_at (suc n) src [] h = absurd (omega arith)
drop-copy_at (suc n) src (b ∷ bs) h = rw suc-add (drop-copy_at n src bs (omega arith))
