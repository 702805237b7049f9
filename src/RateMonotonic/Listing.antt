-- ===== src/RateMonotonic/Listing.antt =====
-- What `mp2_read` of mp2.c writes to its buffer.
use linux_kernel_development.Prelude.{
  ◌∙◌, ◌*◌, ◌^◌, get_elem?, ℕ, ◌+◌, ◌-◌, ◌<◌, ◌≤◌, ◌≡◌, refl, arith, length, length-append, List,
  [], ◌∷◌, ◌++◌, take, replicate,
}
use linux_kernel_development.Prelude.{none, some, leb, false}
use mathlib.Core.Path.{subst}
use linux_kernel_development.Prelude.Words.{as_u32, sign_extend32}
use linux_kernel_development.RateMonotonic.Tasks.{Task}
use linux_kernel_development.RateMonotonic.{ok, faults, out_of_bounds, Scheduler}
use linux_kernel_development.RateMonotonic.Buffers.{
  take-all, length-replicate, snprintf-fits, snprintf-none, snprintf-ends,
}
use linux_kernel_development.RateMonotonic.Status.{print_i32, status_line, Buffer, listing, read}

length-append_pos : (xs : List ℕ) (c : ℕ) (ys : List ℕ) → 0 < length (xs ++ c ∷ ys)
length-append_pos xs c ys = omega (arith, length-append xs (c ∷ ys))

abbrev pub line_size : Task → ℕ
line_size t = length (status_line t)

status_line-pos : (t : Task) → 0 < line_size t
unfolding status_line
status_line-pos t = length-append_pos (print_i32 t.pid) _ _

module _ (t u : Task) (ts : List Task) where
  listing-overflow :
      (count : ℕ) (buf : Buffer)
      → length buf ≡ count
      → line_size t < count
      → count ≤ line_size t + line_size u
      → listing count (t ∷ u ∷ ts) buf 0 0 ≡ faults out_of_bounds
  unfolding listing
  listing-overflow count buf e fits over =
      let (buf', written, same) = snprintf-fits count (status_line t) buf e in
      let pos = status_line-pos t in
      let outside =
        snprintf-none (0 + (0 + line_size t)) count (status_line u) buf' same (omega (arith, pos))
          (omega (arith, fits)) (omega (arith, over)) in
      let room : leb count (0 + line_size t) ≡ false = ground (arith, fits) in
      rw (listing, written, room, outside) refl

  -- Reading with a buffer that has room for the line of the first task and not for that of the second
  -- writes out of the bounds of the buffer.
  pub read-overflow :
      (count uncopied : ℕ) (s : Scheduler)
      → s.tasks ≡ t ∷ u ∷ ts
      → line_size t < count
      → count ≤ line_size t + line_size u
      → read 0 count uncopied s ≡ faults out_of_bounds
  unfolding read
  read-overflow count uncopied s registered fits over =
      let overflow =
        listing-overflow count (replicate count none) (length-replicate count none) fits over in
      rw (registered, overflow) refl

module _ (t u v : Task) where
  listing-three :
      (count : ℕ) (buf : Buffer)
      → length buf ≡ count
      → 2 * line_size t + line_size u + line_size v < count
      → (buf' : Buffer) × (offp : ℕ) × (listing count (t ∷ u ∷ v ∷ []) buf 0 0
          ≡ ok (buf', 0 + line_size t + line_size u + line_size v, offp))
        × (length buf' ≡ count)
        × (get_elem? buf' (line_size t + line_size u) ≡ some (some 0))
  unfolding listing
  listing-three count buf e fits =
      let (buf₁, written₁, same₁, _, _) =
        snprintf-ends 0 count (status_line t) buf e (omega (arith, fits)) in
      let (buf₂, written₂, same₂, last, _) =
        snprintf-ends (0 + (0 + line_size t)) count (status_line u) buf₁ same₁
          (omega (arith, fits)) in
      let (buf₃, written₃, same₃, _, kept) =
        snprintf-ends (0 + (0 + line_size t) + (0 + line_size t + line_size u)) count
          (status_line v) buf₂ same₂ (omega (arith, fits)) in
      let room₁ : leb count (0 + line_size t) ≡ false = ground (arith, fits) in
      let room₂ : leb count (0 + line_size t + line_size u) ≡ false = ground (arith, fits) in
      let room₃ : leb count (0 + line_size t + line_size u + line_size v) ≡ false =
        ground (arith, fits) in
      let pos = status_line-pos t in
      let at : 0 + (0 + line_size t) + line_size u ≡ line_size t + line_size u = omega arith in
      let nul = subst (λ j. get_elem? buf₂ j ≡ some (some 0)) at last in
      (
        buf₃,
        0
            + (0 + line_size t)
            + (0 + line_size t + line_size u)
            + (0 + line_size t + line_size u + line_size v),
        rw (listing, written₁, room₁, written₂, room₂, written₃, room₃) refl,
        same₃,
        kept (line_size t + line_size u) (omega (arith, pos)) ∙ nul,
      )

  counted : (n : ℕ) → n < 2 ^ 31 → sign_extend32 (as_u32 (n + (2 ^ 32 - as_u32 0))) ≡ n
  counted n lt = ground arith

  -- With three registered tasks, in a large enough buffer of less than 2 ^ 31 bytes, the result is the
  -- size of the three lines; but behind the first two lines there is a NUL where the third is to start.
  pub read-third_misplaced :
      (count : ℕ) (s : Scheduler)
      → s.tasks ≡ t ∷ u ∷ v ∷ []
      → 2 * line_size t + line_size u + line_size v < count
      → count < 2 ^ 31
      → (out : Buffer) × (offp : ℕ) × (read 0 count 0 s
          ≡ ok (line_size t + line_size u + line_size v, out, offp))
        × (get_elem? out (line_size t + line_size u) ≡ some (some 0))
  unfolding read
  read-third_misplaced count s registered fits small =
      let (buf, offp, listed, same, nul) =
        listing-three count (replicate count none) (length-replicate count none) fits in
      let shown : take (count - 0) buf ≡ buf = take-all (count - 0) buf (omega (arith, same)) in
      let sum : sign_extend32
            (as_u32 (0 + line_size t + line_size u + line_size v + (2 ^ 32 - as_u32 0)))
          ≡ line_size t + line_size u + line_size v =
        counted (0 + line_size t + line_size u + line_size v) (omega (arith, fits, small))
        ∙ omega arith in
      (buf, offp, rw (registered, listed, shown, sum) refl, nul)
