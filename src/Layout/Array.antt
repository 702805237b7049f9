-- ===== src/Layout/Array.antt =====
-- `__IncompleteArrayField` of perf_event/binding.rs: an array at the end of a structure whose length
-- the caller knows. It has no size of its own; its elements are numbers of `size` bytes each.
use linux_kernel_development.Prelude.{
  ℕ, zero, suc, ◌+◌, ◌*◌, ◌^◌, ◌≤◌, ◌<◌, ◌≡◌, refl, ap₂, inl, inr, arith,
}
use linux_kernel_development.Prelude.{List, [], ◌∷◌, some, get_elem?, set}
use linux_kernel_development.PerCpu.{Memory, load}
use linux_kernel_development.Layout.Store.{store, load-store_apart, load-store_same}
use linux_kernel_development.Layout.{Field}

-- `__IncompleteArrayField<T>`, by the alignment of `T`.
unfoldable pub incomplete_array : Field → Field
incomplete_array t = record { size = 0; align = t.align }

-- `as_ptr` and `as_mut_ptr`: the address of the field itself.
unfoldable pub as_ptr : ℕ → ℕ
as_ptr self = self

unfoldable pub as_mut_ptr : ℕ → ℕ
as_mut_ptr self = self

-- `from_raw_parts` and `from_raw_parts_mut`: `len` elements from an address on, as their values and
-- as their places.
unfoldable pub from_raw_parts : Memory → ℕ → ℕ → ℕ → List ℕ
from_raw_parts mem size addr zero = []
from_raw_parts mem size addr (suc len) =
    load mem size addr ∷ from_raw_parts mem size (addr + size) len

unfoldable pub from_raw_parts_mut : ℕ → ℕ → ℕ → List ℕ
from_raw_parts_mut size addr zero = []
from_raw_parts_mut size addr (suc len) = addr ∷ from_raw_parts_mut size (addr + size) len

unfoldable pub as_slice : Memory → ℕ → ℕ → ℕ → List ℕ
as_slice mem size self len = from_raw_parts mem size (as_ptr self) len

unfoldable pub as_mut_slice : ℕ → ℕ → ℕ → List ℕ
as_mut_slice size self len = from_raw_parts_mut size (as_mut_ptr self) len

-- Places of a slice lie at or behind its start.
le-place :
    (size addr len i place : ℕ)
    → get_elem? (from_raw_parts_mut size addr len) i ≡ some place
    → addr ≤ place
unfolding from_raw_parts_mut
le-place size addr zero i place found = cc
le-place size addr (suc len) zero place found = ground arith
le-place size addr (suc len) (suc i) place found =
    omega (arith, le-place size (addr + size) len i place found)

place-inside :
    (size addr len i place : ℕ)
    → get_elem? (from_raw_parts_mut size addr len) i ≡ some place
    → place + size ≤ addr + size * len
unfolding from_raw_parts_mut
place-inside size addr zero i place found = cc
place-inside size addr (suc len) zero place found = grind arith
place-inside size addr (suc len) (suc i) place found =
    let rest = place-inside size (addr + size) len i place found in grind arith

-- Writing elsewhere leaves a slice alone.
from_raw_parts-store_apart :
    (mem : Memory) (size addr len place v : ℕ)
    → addr + size * len ≤ 2 ^ 64
    → place + size ≤ addr
    → from_raw_parts (store mem size place v) size addr len ≡ from_raw_parts mem size addr len
unfolding from_raw_parts
from_raw_parts-store_apart mem size addr zero place v fits before = refl
from_raw_parts-store_apart mem size addr (suc len) place v fits before =
    let room : addr + size + size * len ≤ 2 ^ 64 = grind arith in
    ap₂ ◌∷◌ (load-store_apart mem size place v size addr (omega arith) (omega arith) (inr before))
      (from_raw_parts-store_apart mem size (addr + size) len place v room (omega arith))

from_raw_parts-store :
    (mem : Memory) (size addr len i place v : ℕ)
    → addr + size * len ≤ 2 ^ 64
    → v < 256 ^ size
    → get_elem? (from_raw_parts_mut size addr len) i ≡ some place
    → from_raw_parts (store mem size place v) size addr len
      ≡ set (from_raw_parts mem size addr len) i v
unfolding from_raw_parts from_raw_parts_mut
from_raw_parts-store mem size addr zero i place v fits small found = cc
from_raw_parts-store mem size addr (suc len) zero place v fits small found =
    let room : addr + size + size * len ≤ 2 ^ 64 = grind arith in
    let here : addr ≡ place = cc in
    let head : load (store mem size place v) size addr ≡ v =
      rw (← here) (load-store_same mem size addr v (omega arith) small) in
    ap₂ ◌∷◌ head (from_raw_parts-store_apart mem size (addr + size) len place v room (omega arith))
from_raw_parts-store mem size addr (suc len) (suc i) place v fits small found =
    let room : addr + size + size * len ≤ 2 ^ 64 = grind arith in
    let behind = le-place size (addr + size) len i place found in
    let inside = place-inside size (addr + size) len i place found in
    ap₂ ◌∷◌ (load-store_apart mem size place v size addr (omega arith) (omega arith) (inl behind))
      (from_raw_parts-store mem size (addr + size) len i place v room small found)

-- Writing through an element of the mutable slice changes that element of the slice, and no other,
-- if the array fits into memory and the number into the element.
as_slice-as_mut_slice :
    (mem : Memory) (size self len i place v : ℕ)
    → self + size * len ≤ 2 ^ 64
    → v < 256 ^ size
    → get_elem? (as_mut_slice size self len) i ≡ some place
    → as_slice (store mem size place v) size self len ≡ set (as_slice mem size self len) i v
unfolding as_slice as_mut_slice as_ptr as_mut_ptr
as_slice-as_mut_slice mem size self len i place v fits small found =
    from_raw_parts-store mem size self len i place v fits small found
