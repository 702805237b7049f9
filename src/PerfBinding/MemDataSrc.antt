-- ===== src/PerfBinding/MemDataSrc.antt =====
-- `perf_mem_data_src__bindgen_ty_1` of binding.rs.
use linux_kernel_development.Prelude.{ℕ, ◌+◌, ◌%◌, ◌^◌, ◌≤◌, ◌≡◌, ◌≢◌, ◌⊎◌, ◌∙◌, refl, sym, arith}
use linux_kernel_development.Prelude.{List, [], ◌∷◌, length, Outcome, ok, ◌>>=◌, >>=-of_ok}
use linux_kernel_development.Build.{Build}
use linux_kernel_development.Bitfield.{BitfieldUnit, default_unit, get, set_field}
use linux_kernel_development.Bitfield.Field.{InRange, set_field_lem}
use linux_kernel_development.Bitfield.Laws.{get-set_field, get-set_field_disjoint}
use linux_kernel_development.Bitfield.Sequence.{Store, set_all_lem}

pub record MemDataBits : Type 0 where
  pub bitfield_1 : BitfieldUnit

pub data MemField : Type 0 where
  mem_op mem_lvl mem_snoop mem_lock mem_dtlb mem_lvl_num mem_remote mem_snoopx mem_blk mem_rsvd :
      MemField

-- The numbers in the accessors' calls.
unfoldable pub offset : MemField → ℕ
offset mem_op = 0
offset mem_lvl = 5
offset mem_snoop = 19
offset mem_lock = 24
offset mem_dtlb = 26
offset mem_lvl_num = 33
offset mem_remote = 37
offset mem_snoopx = 38
offset mem_blk = 40
offset mem_rsvd = 43

unfoldable pub width : MemField → ℕ
width mem_op = 5
width mem_lvl = 14
width mem_snoop = 5
width mem_lock = 2
width mem_dtlb = 7
width mem_lvl_num = 4
width mem_remote = 1
width mem_snoopx = 2
width mem_blk = 3
width mem_rsvd = 21

-- The arguments of `new_bitfield_1`, by the field that each is for.
abbrev pub Values : Type 0
Values = MemField → ℕ

module _ (b : Build) where
  pub load : MemField → MemDataBits → Outcome ℕ
  load mem_op e = get b e.bitfield_1 0 5
  load mem_lvl e = get b e.bitfield_1 5 14
  load mem_snoop e = get b e.bitfield_1 19 5
  load mem_lock e = get b e.bitfield_1 24 2
  load mem_dtlb e = get b e.bitfield_1 26 7
  load mem_lvl_num e = get b e.bitfield_1 33 4
  load mem_remote e = get b e.bitfield_1 37 1
  load mem_snoopx e = get b e.bitfield_1 38 2
  load mem_blk e = get b e.bitfield_1 40 3
  load mem_rsvd e = get b e.bitfield_1 43 21

  pub store : MemField → ℕ → MemDataBits → Outcome MemDataBits
  store mem_op val e = do u ← set_field b e.bitfield_1 0 5 val; ok (record e { bitfield_1 = u })
  store mem_lvl val e = do u ← set_field b e.bitfield_1 5 14 val; ok (record e { bitfield_1 = u })
  store mem_snoop val e = do u ← set_field b e.bitfield_1 19 5 val; ok (record e { bitfield_1 = u })
  store mem_lock val e = do u ← set_field b e.bitfield_1 24 2 val; ok (record e { bitfield_1 = u })
  store mem_dtlb val e = do u ← set_field b e.bitfield_1 26 7 val; ok (record e { bitfield_1 = u })
  store mem_lvl_num val e = do
    u ← set_field b e.bitfield_1 33 4 val
    ok (record e { bitfield_1 = u })
  store mem_remote val e = do
    u ← set_field b e.bitfield_1 37 1 val
    ok (record e { bitfield_1 = u })
  store mem_snoopx val e = do
    u ← set_field b e.bitfield_1 38 2 val
    ok (record e { bitfield_1 = u })
  store mem_blk val e = do u ← set_field b e.bitfield_1 40 3 val; ok (record e { bitfield_1 = u })
  store mem_rsvd val e = do u ← set_field b e.bitfield_1 43 21 val; ok (record e { bitfield_1 = u })

  pub new_bitfield_1 : Values → Outcome BitfieldUnit
  new_bitfield_1 v = do
    let u₀ = default_unit 8
    u₁ ← set_field b u₀ 0 5 (v mem_op)
    u₂ ← set_field b u₁ 5 14 (v mem_lvl)
    u₃ ← set_field b u₂ 19 5 (v mem_snoop)
    u₄ ← set_field b u₃ 24 2 (v mem_lock)
    u₅ ← set_field b u₄ 26 7 (v mem_dtlb)
    u₆ ← set_field b u₅ 33 4 (v mem_lvl_num)
    u₇ ← set_field b u₆ 37 1 (v mem_remote)
    u₈ ← set_field b u₇ 38 2 (v mem_snoopx)
    u₉ ← set_field b u₈ 40 3 (v mem_blk)
    u₁₀ ← set_field b u₉ 43 21 (v mem_rsvd)
    ok u₁₀

-- A unit of the eight bytes that the structure has.
abbrev pub IsWord : MemDataBits → Type 0
IsWord e = length e.bitfield_1.storage ≡ 8

field-InRange :
    (f : MemField) (e : MemDataBits) → IsWord e → InRange e.bitfield_1 (offset f) (width f)
unfolding offset width
field-InRange mem_op e h = omega arith
field-InRange mem_lvl e h = omega arith
field-InRange mem_snoop e h = omega arith
field-InRange mem_lock e h = omega arith
field-InRange mem_dtlb e h = omega arith
field-InRange mem_lvl_num e h = omega arith
field-InRange mem_remote e h = omega arith
field-InRange mem_snoopx e h = omega arith
field-InRange mem_blk e h = omega arith
field-InRange mem_rsvd e h = omega arith

-- The fields lie side by side: two different ones do not overlap.
field_apart :
    (f g : MemField) → f ≢ g → (offset f + width f ≤ offset g) ⊎ (offset g + width g ≤ offset f)
unfolding offset width
field_apart mem_op g ne = ground arith
field_apart mem_lvl g ne = ground arith
field_apart mem_snoop g ne = ground arith
field_apart mem_lock g ne = ground arith
field_apart mem_dtlb g ne = ground arith
field_apart mem_lvl_num g ne = ground arith
field_apart mem_remote g ne = ground arith
field_apart mem_snoopx g ne = ground arith
field_apart mem_blk g ne = ground arith
field_apart mem_rsvd g ne = ground arith

module _ (b : Build) where
  load_lem : (f : MemField) (e : MemDataBits) → load b f e ≡ get b e.bitfield_1 (offset f) (width f)
  unfolding load offset width
  load_lem mem_op e = refl
  load_lem mem_lvl e = refl
  load_lem mem_snoop e = refl
  load_lem mem_lock e = refl
  load_lem mem_dtlb e = refl
  load_lem mem_lvl_num e = refl
  load_lem mem_remote e = refl
  load_lem mem_snoopx e = refl
  load_lem mem_blk e = refl
  load_lem mem_rsvd e = refl

  store_lem :
      (f : MemField) (val : ℕ) (e : MemDataBits)
      → store b f val e ≡ (
          set_field b e.bitfield_1 (offset f) (width f) val >>= λ u.
          ok (record e { bitfield_1 = u }))
  unfolding store offset width
  store_lem mem_op val e = refl
  store_lem mem_lvl val e = refl
  store_lem mem_snoop val e = refl
  store_lem mem_lock val e = refl
  store_lem mem_dtlb val e = refl
  store_lem mem_lvl_num val e = refl
  store_lem mem_remote val e = refl
  store_lem mem_snoopx val e = refl
  store_lem mem_blk val e = refl
  store_lem mem_rsvd val e = refl

  -- A setter stores into the bit field and leaves the rest of the structure.
  store_returns :
      (f : MemField) (val : ℕ) (e : MemDataBits)
      → IsWord e
      → (u : BitfieldUnit) × (set_field b e.bitfield_1 (offset f) (width f) val ≡ ok u)
        × (store b f val e ≡ ok (record e { bitfield_1 = u }))
  store_returns f val e h =
      let done = set_field_lem b (offset f) (width f) val e.bitfield_1 (field-InRange f e h) in
      (done.0, done.1, rw (store_lem f val e, done.1))

  -- Read through a setter's result, a field is read through the unit that `set` returned.
  load-store_unit :
      (f g : MemField) (val : ℕ) (e : MemDataBits)
      → IsWord e
      → (store b f val e >>= load b g)
        ≡ (set_field b e.bitfield_1 (offset f) (width f) val >>= λ u. get b u (offset g) (width g))
  load-store_unit f g val e h =
      let (u, returns, stored) = store_returns f val e h in
      >>=-of_ok (load b g) stored
      ∙ load_lem g (record e { bitfield_1 = u })
      ∙ sym (>>=-of_ok (λ x. get b x (offset g) (width g)) returns)

  -- On a `perf_mem_data_src` with its eight bytes, a setter returns, and its getter then gives the
  -- value cut to the field's width.
  load-store_mem :
      (f : MemField) (val : ℕ) (e : MemDataBits)
      → IsWord e
      → (store b f val e >>= load b f) ≡ ok (val % 2 ^ width f)
  load-store_mem f val e h =
      load-store_unit f f val e h
      ∙ get-set_field b e.bitfield_1 (offset f) (width f) val (field-InRange f e h)

  -- On a `perf_mem_data_src` with its eight bytes, a setter does not change what the getter of
  -- another field gives.
  load-store_mem_ne :
      (f g : MemField) (val : ℕ) (e : MemDataBits)
      → IsWord e
      → f ≢ g
      → (store b f val e >>= load b g) ≡ load b g e
  load-store_mem_ne f g val e h ne =
      load-store_unit f g val e h
      ∙ get-set_field_disjoint b e.bitfield_1 (offset f) (width f) val (offset g) (width g)
          (field-InRange f e h) (field-InRange g e h) (field_apart f g ne)
      ∙ sym (load_lem g e)

  -- The stores of `new_bitfield_1`.
  abbrev stores : Values → List Store
  stores v =
      record { bit_offset = 0; bit_width = 5; val = v mem_op }
      ∷ record { bit_offset = 5; bit_width = 14; val = v mem_lvl }
      ∷ record { bit_offset = 19; bit_width = 5; val = v mem_snoop }
      ∷ record { bit_offset = 24; bit_width = 2; val = v mem_lock }
      ∷ record { bit_offset = 26; bit_width = 7; val = v mem_dtlb }
      ∷ record { bit_offset = 33; bit_width = 4; val = v mem_lvl_num }
      ∷ record { bit_offset = 37; bit_width = 1; val = v mem_remote }
      ∷ record { bit_offset = 38; bit_width = 2; val = v mem_snoopx }
      ∷ record { bit_offset = 40; bit_width = 3; val = v mem_blk }
      ∷ record { bit_offset = 43; bit_width = 21; val = v mem_rsvd }
      ∷ []

  -- The constructor of `perf_mem_data_src` bit fields returns a unit in which every field holds its
  -- argument, cut to its width.
  get-new_bitfield_1_mem :
      (v : Values)
      → (u : BitfieldUnit) × (new_bitfield_1 b v ≡ ok u)
        × ((f : MemField) → get b u (offset f) (width f) ≡ ok (v f % 2 ^ width f))
  unfolding new_bitfield_1 default_unit offset width
  get-new_bitfield_1_mem v =
      let (u, returns, reads) =
        set_all_lem b (stores v) (default_unit 8) (omega arith) (omega arith) in
      (
        u,
        returns,
        elim [
          | mem_op ↦ reads.0
          | mem_lvl ↦ reads.1.0
          | mem_snoop ↦ reads.1.1.0
          | mem_lock ↦ reads.1.1.1.0
          | mem_dtlb ↦ reads.1.1.1.1.0
          | mem_lvl_num ↦ reads.1.1.1.1.1.0
          | mem_remote ↦ reads.1.1.1.1.1.1.0
          | mem_snoopx ↦ reads.1.1.1.1.1.1.1.0
          | mem_blk ↦ reads.1.1.1.1.1.1.1.1.0
          | mem_rsvd ↦ reads.1.1.1.1.1.1.1.1.1.0
        ],
      )
