-- ===== src/PerfBinding/BranchEntry.antt =====
-- `perf_branch_entry` of binding.rs.
use linux_kernel_development.Prelude.{ℕ, ◌+◌, ◌%◌, ◌^◌, ◌≤◌, ◌≡◌, ◌≢◌, ◌⊎◌, ◌∙◌, refl, sym, arith}
use linux_kernel_development.Prelude.{List, [], ◌∷◌, length, Outcome, ok, ◌>>=◌, >>=-of_ok}
use linux_kernel_development.Build.{Build}
use linux_kernel_development.Bitfield.{BitfieldUnit, default_unit, get, set_field}
use linux_kernel_development.Bitfield.Field.{InRange, set_field_lem}
use linux_kernel_development.Bitfield.Laws.{get-set_field, get-set_field_disjoint}
use linux_kernel_development.Bitfield.Sequence.{Store, set_all_lem}

pub record PerfBranchEntry : Type 0 where
  pub from : ℕ
  pub to : ℕ
  pub bitfield_1 : BitfieldUnit

pub data BranchField : Type 0 where
  mispred predicted in_tx abort cycles type_ reserved : BranchField

-- The numbers in the accessors' calls.
unfoldable pub offset : BranchField → ℕ
offset mispred = 0
offset predicted = 1
offset in_tx = 2
offset abort = 3
offset cycles = 4
offset type_ = 20
offset reserved = 24

unfoldable pub width : BranchField → ℕ
width mispred = 1
width predicted = 1
width in_tx = 1
width abort = 1
width cycles = 16
width type_ = 4
width reserved = 40

-- The arguments of `new_bitfield_1`, by the field that each is for.
abbrev pub Values : Type 0
Values = BranchField → ℕ

module _ (b : Build) where
  pub load : BranchField → PerfBranchEntry → Outcome ℕ
  load mispred e = get b e.bitfield_1 0 1
  load predicted e = get b e.bitfield_1 1 1
  load in_tx e = get b e.bitfield_1 2 1
  load abort e = get b e.bitfield_1 3 1
  load cycles e = get b e.bitfield_1 4 16
  load type_ e = get b e.bitfield_1 20 4
  load reserved e = get b e.bitfield_1 24 40

  pub store : BranchField → ℕ → PerfBranchEntry → Outcome PerfBranchEntry
  store mispred val e = do u ← set_field b e.bitfield_1 0 1 val; ok (record e { bitfield_1 = u })
  store predicted val e = do u ← set_field b e.bitfield_1 1 1 val; ok (record e { bitfield_1 = u })
  store in_tx val e = do u ← set_field b e.bitfield_1 2 1 val; ok (record e { bitfield_1 = u })
  store abort val e = do u ← set_field b e.bitfield_1 3 1 val; ok (record e { bitfield_1 = u })
  store cycles val e = do u ← set_field b e.bitfield_1 4 16 val; ok (record e { bitfield_1 = u })
  store type_ val e = do u ← set_field b e.bitfield_1 20 4 val; ok (record e { bitfield_1 = u })
  store reserved val e = do u ← set_field b e.bitfield_1 24 40 val; ok (record e { bitfield_1 = u })

  pub new_bitfield_1 : Values → Outcome BitfieldUnit
  new_bitfield_1 v = do
    let u₀ = default_unit 8
    u₁ ← set_field b u₀ 0 1 (v mispred)
    u₂ ← set_field b u₁ 1 1 (v predicted)
    u₃ ← set_field b u₂ 2 1 (v in_tx)
    u₄ ← set_field b u₃ 3 1 (v abort)
    u₅ ← set_field b u₄ 4 16 (v cycles)
    u₆ ← set_field b u₅ 20 4 (v type_)
    u₇ ← set_field b u₆ 24 40 (v reserved)
    ok u₇

-- A unit of the eight bytes that the structure has.
abbrev pub IsWord : PerfBranchEntry → Type 0
IsWord e = length e.bitfield_1.storage ≡ 8

field-InRange :
    (f : BranchField) (e : PerfBranchEntry) → IsWord e → InRange e.bitfield_1 (offset f) (width f)
unfolding offset width
field-InRange mispred e h = omega arith
field-InRange predicted e h = omega arith
field-InRange in_tx e h = omega arith
field-InRange abort e h = omega arith
field-InRange cycles e h = omega arith
field-InRange type_ e h = omega arith
field-InRange reserved e h = omega arith

-- The fields lie side by side: two different ones do not overlap.
field_apart :
    (f g : BranchField) → f ≢ g → (offset f + width f ≤ offset g) ⊎ (offset g + width g ≤ offset f)
unfolding offset width
field_apart mispred g ne = ground arith
field_apart predicted g ne = ground arith
field_apart in_tx g ne = ground arith
field_apart abort g ne = ground arith
field_apart cycles g ne = ground arith
field_apart type_ g ne = ground arith
field_apart reserved g ne = ground arith

module _ (b : Build) where
  load_lem :
      (f : BranchField) (e : PerfBranchEntry) → load b f e ≡ get b e.bitfield_1 (offset f) (width f)
  unfolding load offset width
  load_lem mispred e = refl
  load_lem predicted e = refl
  load_lem in_tx e = refl
  load_lem abort e = refl
  load_lem cycles e = refl
  load_lem type_ e = refl
  load_lem reserved e = refl

  store_lem :
      (f : BranchField) (val : ℕ) (e : PerfBranchEntry)
      → store b f val e ≡ (
          set_field b e.bitfield_1 (offset f) (width f) val >>= λ u.
          ok (record e { bitfield_1 = u }))
  unfolding store offset width
  store_lem mispred val e = refl
  store_lem predicted val e = refl
  store_lem in_tx val e = refl
  store_lem abort val e = refl
  store_lem cycles val e = refl
  store_lem type_ val e = refl
  store_lem reserved val e = refl

  -- A setter stores into the bit field and leaves the rest of the structure.
  store_returns :
      (f : BranchField) (val : ℕ) (e : PerfBranchEntry)
      → IsWord e
      → (u : BitfieldUnit) × (set_field b e.bitfield_1 (offset f) (width f) val ≡ ok u)
        × (store b f val e ≡ ok (record e { bitfield_1 = u }))
  store_returns f val e h =
      let done = set_field_lem b (offset f) (width f) val e.bitfield_1 (field-InRange f e h) in
      (done.0, done.1, rw (store_lem f val e, done.1))

  -- Read through a setter's result, a field is read through the unit that `set` returned.
  load-store_unit :
      (f g : BranchField) (val : ℕ) (e : PerfBranchEntry)
      → IsWord e
      → (store b f val e >>= load b g)
        ≡ (set_field b e.bitfield_1 (offset f) (width f) val >>= λ u. get b u (offset g) (width g))
  load-store_unit f g val e h =
      let (u, returns, stored) = store_returns f val e h in
      >>=-of_ok (load b g) stored
      ∙ load_lem g (record e { bitfield_1 = u })
      ∙ sym (>>=-of_ok (λ x. get b x (offset g) (width g)) returns)

  -- On a `perf_branch_entry` with its eight bytes, a setter returns, and its getter then gives the
  -- value cut to the field's width.
  load-store :
      (f : BranchField) (val : ℕ) (e : PerfBranchEntry)
      → IsWord e
      → (store b f val e >>= load b f) ≡ ok (val % 2 ^ width f)
  load-store f val e h =
      load-store_unit f f val e h
      ∙ get-set_field b e.bitfield_1 (offset f) (width f) val (field-InRange f e h)

  -- On a `perf_branch_entry` with its eight bytes, a setter does not change what the getter of
  -- another field gives.
  load-store_ne :
      (f g : BranchField) (val : ℕ) (e : PerfBranchEntry)
      → IsWord e
      → f ≢ g
      → (store b f val e >>= load b g) ≡ load b g e
  load-store_ne f g val e h ne =
      load-store_unit f g val e h
      ∙ get-set_field_disjoint b e.bitfield_1 (offset f) (width f) val (offset g) (width g)
          (field-InRange f e h) (field-InRange g e h) (field_apart f g ne)
      ∙ sym (load_lem g e)

  -- The stores of `new_bitfield_1`.
  abbrev stores : Values → List Store
  stores v =
      record { bit_offset = 0; bit_width = 1; val = v mispred }
      ∷ record { bit_offset = 1; bit_width = 1; val = v predicted }
      ∷ record { bit_offset = 2; bit_width = 1; val = v in_tx }
      ∷ record { bit_offset = 3; bit_width = 1; val = v abort }
      ∷ record { bit_offset = 4; bit_width = 16; val = v cycles }
      ∷ record { bit_offset = 20; bit_width = 4; val = v type_ }
      ∷ record { bit_offset = 24; bit_width = 40; val = v reserved }
      ∷ []

  -- The constructor of `perf_branch_entry` bit fields returns a unit in which every field holds its
  -- argument, cut to its width.
  get-new_bitfield_1 :
      (v : Values)
      → (u : BitfieldUnit) × (new_bitfield_1 b v ≡ ok u)
        × ((f : BranchField) → get b u (offset f) (width f) ≡ ok (v f % 2 ^ width f))
  unfolding new_bitfield_1 default_unit offset width
  get-new_bitfield_1 v =
      let (u, returns, reads) =
        set_all_lem b (stores v) (default_unit 8) (omega arith) (omega arith) in
      (
        u,
        returns,
        elim [
          | mispred ↦ reads.0
          | predicted ↦ reads.1.0
          | in_tx ↦ reads.1.1.0
          | abort ↦ reads.1.1.1.0
          | cycles ↦ reads.1.1.1.1.0
          | type_ ↦ reads.1.1.1.1.1.0
          | reserved ↦ reads.1.1.1.1.1.1.0
        ],
      )
