-- ===== src/Layout/Written.antt =====
-- Reading back a structure that was written field by field.
use linux_kernel_development.Prelude.{
  ℕ, zero, suc, ◌+◌, ◌%◌, ◌^◌, ◌≤◌, ◌<◌, ◌≡◌, ◌⊎◌, refl, ◌∙◌, inl, arith,
}
use linux_kernel_development.Prelude.{List, [], ◌∷◌, some, get_elem?}
use linux_kernel_development.PerCpu.{Memory, load}
use linux_kernel_development.Layout.Store.{store, load-store_apart, load-store_same}
use linux_kernel_development.Layout.Places.{
  le-round_up, le-end_from, offset_from-inside, end_from-le-size_of,
}
use linux_kernel_development.Layout.{
  Field, round_up, offset_from, end_from, offset_of, size_of, read_at, write_from, write_struct,
}

-- Filling in a structure changes no byte before its first field or behind its last.
load-write_from_apart :
    (mem : Memory) (base at : ℕ) (fs : List Field) (vs : List ℕ) (k a : ℕ)
    → base + end_from at fs ≤ 2 ^ 64
    → a + k ≤ 2 ^ 64
    → (a + k ≤ base + at) ⊎ (base + end_from at fs ≤ a)
    → load (write_from mem base at fs vs) k a ≡ load mem k a
unfolding write_from end_from
load-write_from_apart mem base at [] vs k a fits fits' apart = refl
load-write_from_apart mem base at (f ∷ fs) [] k a fits fits' apart = refl
load-write_from_apart mem base at (f ∷ fs) (v ∷ vs) k a fits fits' apart =
    let offset = round_up at f.align in
    let here = le-round_up at f.align in
    let behind = le-end_from fs (offset + f.size) in
    load-write_from_apart (store mem f.size (base + offset) v) base (offset + f.size) fs vs k a fits
      fits' (ground (arith, here))
    ∙ load-store_apart mem f.size (base + offset) v k a (omega arith) fits' (ground arith)

load-write_from_first :
    (mem : Memory) (base at : ℕ) (f : Field) (fs : List Field) (v : ℕ) (vs : List ℕ)
    → base + end_from at (f ∷ fs) ≤ 2 ^ 64
    → v < 256 ^ f.size
    → load (write_from mem base at (f ∷ fs) (v ∷ vs)) f.size (base + round_up at f.align) ≡ v
unfolding write_from end_from
load-write_from_first mem base at f fs v vs fits small =
    let offset = round_up at f.align in
    let behind = le-end_from fs (offset + f.size) in
    load-write_from_apart (store mem f.size (base + offset) v) base (offset + f.size) fs vs f.size
      (base + offset) fits (omega arith) (inl (omega arith))
    ∙ load-store_same mem f.size (base + offset) v (omega arith) small

load-write_from :
    (mem : Memory) (base at : ℕ) (fs : List Field) (vs : List ℕ) (i : ℕ) {f : Field} {v : ℕ}
    → base + end_from at fs ≤ 2 ^ 64
    → get_elem? fs i ≡ some f
    → get_elem? vs i ≡ some v
    → v < 256 ^ f.size
    → load (write_from mem base at fs vs) f.size (base + offset_from at fs i) ≡ v
unfolding write_from end_from offset_from
load-write_from mem base at [] vs i fits found given small = cc
load-write_from mem base at (x ∷ fs) [] i fits found given small = cc
load-write_from mem base at (x ∷ fs) (w ∷ vs) zero {f} {v} fits found given small =
    let field : x ≡ f = cc in
    let value : w ≡ v = cc in
    let fits' : v < 256 ^ x.size = rw field small in
    rw (← field, ← value) (load-write_from_first mem base at x fs w vs fits (rw value fits'))
load-write_from mem base at (x ∷ fs) (w ∷ vs) (suc i) fits found given small =
    let offset = round_up at x.align in
    load-write_from (store mem x.size (base + offset) w) base (offset + x.size) fs vs i fits found
      given small

-- A field of a structure that was filled in at an address, from which on it fits into memory, reads
-- as the value that it was given, if that value fits into the field.
pub read_at-write_struct :
    (mem : Memory) (base : ℕ) (fs : List Field) (vs : List ℕ) (i : ℕ) (f : Field) (v : ℕ)
    → base + size_of fs ≤ 2 ^ 64
    → get_elem? fs i ≡ some f
    → get_elem? vs i ≡ some v
    → v < 256 ^ f.size
    → 0 < f.size
    → read_at (write_struct mem base fs vs) base (offset_of fs i) f.size ≡ v
unfolding read_at write_struct offset_of
read_at-write_struct mem base fs vs i f v fits found given small pos =
    let end = end_from-le-size_of fs in
    let inside = offset_from-inside fs 0 i found in
    let whole : (base + offset_from 0 fs i) % 2 ^ 64 ≡ base + offset_from 0 fs i = omega arith in
    rw whole (load-write_from mem base 0 fs vs i (omega arith) found given small)

-- A read of bytes outside a structure is not changed by filling it in.
pub read_at-write_struct_apart :
    (mem : Memory) (base : ℕ) (fs : List Field) (vs : List ℕ) (other offset size : ℕ)
    → base + size_of fs ≤ 2 ^ 64
    → other + offset + size ≤ 2 ^ 64
    → 0 < size
    → (other + offset + size ≤ base) ⊎ (base + size_of fs ≤ other + offset)
    → read_at (write_struct mem base fs vs) other offset size ≡ read_at mem other offset size
unfolding read_at write_struct
read_at-write_struct_apart mem base fs vs other offset size fits fits' pos apart =
    let end = end_from-le-size_of fs in
    let whole : (other + offset) % 2 ^ 64 ≡ other + offset = omega arith in
    rw whole (
      load-write_from_apart mem base 0 fs vs size (other + offset) (omega arith) fits'
        (ground arith))
