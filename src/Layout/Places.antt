-- ===== src/Layout/Places.antt =====
-- Where the fields of a structure lie: aligned, apart and inside.
use linux_kernel_development.Prelude.{
  ℕ, zero, suc, ◌+◌, ◌-◌, ◌%◌, ◌≤◌, ◌<◌, ◌≡◌, ◌∙◌, arith, sym, ap,
}
use linux_kernel_development.Prelude.{List, [], ◌∷◌, some, get_elem?}
use native.Mathlib.Nat.{mod-lt, mod_self, add-mod-mod, mod-add-mod}
use linux_kernel_development.Layout.{Field, round_up, offset_from, end_from, align_of, size_of}

pub le-round_up : (n align : ℕ) → n ≤ round_up n align
unfolding round_up
le-round_up n align = omega arith

pub round_up-multiple : (n align : ℕ) → 0 < align → round_up n align % align ≡ 0
unfolding round_up
round_up-multiple n align pos =
    let left = align - n % align in
    let whole : n % align + left ≡ align = omega (arith, mod-lt n pos) in
    add-mod-mod n left align
    ∙ sym (mod-add-mod n align left)
    ∙ ap (λ (t : ℕ). t % align) whole
    ∙ mod_self align

round_up-lt : (n align : ℕ) → 0 < align → round_up n align < n + align
unfolding round_up
round_up-lt n align pos = omega (arith, mod-lt (align - n % align) pos)

-- Every alignment is positive.
abbrev pub Aligned : List Field → Type 0
Aligned [] = Unit
Aligned (f ∷ fs) = (0 < f.align) × Aligned fs

pub le-offset_from :
    (fs : List Field) (at i : ℕ) {f : Field} → get_elem? fs i ≡ some f → at ≤ offset_from at fs i
unfolding offset_from
le-offset_from [] at i found = cc
le-offset_from (x ∷ fs) at zero found = le-round_up at x.align
le-offset_from (x ∷ fs) at (suc i) found =
    omega (arith, le-round_up at x.align, le-offset_from fs (round_up at x.align + x.size) i found)

pub le-end_from : (fs : List Field) (at : ℕ) → at ≤ end_from at fs
unfolding end_from
le-end_from [] at = omega arith
le-end_from (x ∷ fs) at =
    omega (arith, le-round_up at x.align, le-end_from fs (round_up at x.align + x.size))

pub offset_from-inside :
    (fs : List Field) (at i : ℕ) {f : Field}
    → get_elem? fs i ≡ some f
    → offset_from at fs i + f.size ≤ end_from at fs
unfolding offset_from end_from
offset_from-inside [] at i found = cc
offset_from-inside (x ∷ fs) at zero found =
    grind (arith, le-end_from fs (round_up at x.align + x.size))
offset_from-inside (x ∷ fs) at (suc i) found =
    offset_from-inside fs (round_up at x.align + x.size) i found

offset_from-apart :
    (fs : List Field) (at i j : ℕ) {f g : Field}
    → get_elem? fs i ≡ some f
    → get_elem? fs j ≡ some g
    → i < j
    → offset_from at fs i + f.size ≤ offset_from at fs j
unfolding offset_from
offset_from-apart [] at i j found found' lt = cc
offset_from-apart (x ∷ fs) at i zero found found' lt = absurd (omega arith)
offset_from-apart (x ∷ fs) at zero (suc j) found found' lt =
    grind (arith, le-offset_from fs (round_up at x.align + x.size) j found')
offset_from-apart (x ∷ fs) at (suc i) (suc j) found found' lt =
    offset_from-apart fs (round_up at x.align + x.size) i j found found' (omega arith)

offset_from-multiple :
    (fs : List Field) (at i : ℕ) {f : Field}
    → Aligned fs
    → get_elem? fs i ≡ some f
    → offset_from at fs i % f.align ≡ 0
unfolding offset_from
offset_from-multiple [] at i aligned found = cc
offset_from-multiple (x ∷ fs) at zero aligned found =
    grind (arith, round_up-multiple at x.align aligned.0)
offset_from-multiple (x ∷ fs) at (suc i) aligned found =
    offset_from-multiple fs (round_up at x.align + x.size) i aligned.1 found

pub end_from-le-size_of : (fs : List Field) → end_from 0 fs ≤ size_of fs
unfolding size_of
end_from-le-size_of fs = le-round_up (end_from 0 fs) (align_of fs)
