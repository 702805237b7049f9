-- ===== src/Prelude/Slices.antt =====
-- Rust slices that panic out of bounds, and C strings in byte arrays.
use Prim.Native.Nat.{ℕ, zero, suc, ◌-◌, ◌≤◌, ◌<◌}
use mathlib.Core.Path.{◌≡◌, refl}
use mathlib.Core.Bool.{◌&&◌}
use mathlib.Core.Option.{none, some}
use mathlib.Core.List.{List, [], ◌∷◌, ◌++◌}
use Prim.Native.Char.{code}
use Prim.Native.String.{String}
use native.Mathlib.Omega.{arith}
use linux_kernel_development.Prelude.Tests.{leb, ltb, ◌==◌, if◌then◌else◌}
use linux_kernel_development.Prelude.Lists.{length, get_elem?, set, take, drop, length-append}
use linux_kernel_development.Prelude.Lists.{length-take, length-drop}
use linux_kernel_development.Prelude.Panicking.{Outcome, ok, panics, out_of_bounds}

module _ {ℓ} {A : Type ℓ} where
  -- `xs[i]`.
  abbrev pub read : List A → ℕ → Outcome A
  read xs i = elim (get_elem? xs i) [ none ↦ panics out_of_bounds | some x ↦ ok x ]

  -- `xs[i] = v`.
  abbrev pub write : List A → ℕ → A → Outcome (List A)
  write xs i v = if ltb i (length xs) then ok (set xs i v) else panics out_of_bounds

  -- `dst[..n].copy_from_slice(&src[..n])`.
  abbrev pub copy_prefix : List A → List A → ℕ → Outcome (List A)
  copy_prefix dst src n =
      if leb n (length dst) && leb n (length src)
      then ok (take n src ++ drop n dst)
      else panics out_of_bounds

  -- `&xs[begin..end]`.
  abbrev pub slice : List A → ℕ → ℕ → Outcome (List A)
  slice xs begin end =
      if leb begin end && leb end (length xs)
      then ok (take (end - begin) (drop begin xs))
      else panics out_of_bounds

  pub copy_prefix-fits :
      (dst src : List A) (n : ℕ)
      → n ≤ length dst
      → n ≤ length src
      → copy_prefix dst src n ≡ ok (take n src ++ drop n dst)
  copy_prefix-fits dst src n h k = ground arith

  pub length-copied :
      (dst src : List A) (n : ℕ)
      → n ≤ length dst
      → n ≤ length src
      → length (take n src ++ drop n dst) ≡ length dst
  length-copied dst src n h k =
      omega (arith, length-append (take n src) (drop n dst), length-take n src, length-drop n dst)

-- The bytes of an ASCII text.
abbrev pub bytes : String → List ℕ
bytes String.[] = []
bytes (String.◌∷◌ c s) = code c ∷ bytes s

-- The bytes before the first NUL, as C reads a string.
abbrev pub c_string : List ℕ → List ℕ
c_string [] = []
c_string (x ∷ xs) = if x == 0 then [] else x ∷ c_string xs

-- Putting a NUL at index `n` of a copied prefix ends the string there.
pub c_string-terminated :
    (n : ℕ) (src dst : List ℕ)
    → n < length dst
    → n ≤ length src
    → c_string (set (take n src ++ drop n dst) n 0) ≡ take n (c_string src)
c_string-terminated zero src [] h k = absurd (omega arith)
c_string-terminated zero src (d ∷ dst) h k = refl
c_string-terminated (suc n) [] dst h k = absurd (omega arith)
c_string-terminated (suc n) (x ∷ src) [] h k = absurd (omega arith)
c_string-terminated (suc n) (x ∷ src) (d ∷ dst) h k =
    ground (arith, c_string-terminated n src dst (omega arith) (omega arith))
