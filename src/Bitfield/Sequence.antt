-- ===== src/Bitfield/Sequence.antt =====
-- A run of stores into fields that do not overlap, as the `new_bitfield_1` functions of binding.rs
-- make it.
use linux_kernel_development.Prelude.{
  ℕ, ◌+◌, ◌%◌, ◌^◌, ◌≤◌, ◌≡◌, ◌∙◌, sym, ◌⊎◌, List, [], ◌∷◌, arith, length, refl,
}
use linux_kernel_development.Prelude.{Outcome, ok, ◌>>=◌, >>=-of_ok}
use linux_kernel_development.Build.{Build}
use linux_kernel_development.Bitfield.{BitfieldUnit, get, set_field}
use linux_kernel_development.Bitfield.Field.{InRange, set_field_lem}
use linux_kernel_development.Bitfield.Laws.{
  InRange-same_length, get-set_field, get-set_field_disjoint,
}

-- One store: where the field lies and the value for it.
pub record Store : Type 0 where
  pub bit_offset : ℕ
  pub bit_width : ℕ
  pub val : ℕ

abbrev pub All : (Store → Type 0) → List Store → Type 0
All P [] = Unit
All P (s ∷ ss) = P s × All P ss

abbrev pub Apart : ℕ → ℕ → Store → Type 0
Apart off w s = (off + w ≤ s.bit_offset) ⊎ (s.bit_offset + s.bit_width ≤ off)

-- No two of the fields overlap.
abbrev pub AllApart : List Store → Type 0
AllApart [] = Unit
AllApart (s ∷ ss) = All (Apart s.bit_offset s.bit_width) ss × AllApart ss

abbrev pub AllInRange : BitfieldUnit → List Store → Type 0
AllInRange u = All (λ s. InRange u s.bit_offset s.bit_width)

AllInRange-same_length :
    (u out : BitfieldUnit) (ss : List Store)
    → length out.storage ≡ length u.storage
    → AllInRange u ss
    → AllInRange out ss
AllInRange-same_length u out [] e h = tt
AllInRange-same_length u out (s ∷ ss) e h =
    (InRange-same_length e h.0, AllInRange-same_length u out ss e h.1)

module _ (b : Build) where
  abbrev pub set_all : List Store → BitfieldUnit → Outcome BitfieldUnit
  set_all [] u = ok u
  set_all (s ∷ ss) u = set_field b u s.bit_offset s.bit_width s.val >>= set_all ss

  -- The unit that a store returns, with what `set_field_lem` and the laws say of it.
  record Stored (u : BitfieldUnit) (s : Store) : Type 0 where
    out : BitfieldUnit
    returns : set_field b u s.bit_offset s.bit_width s.val ≡ ok out
    same_length : length out.storage ≡ length u.storage
    reads : get b out s.bit_offset s.bit_width ≡ ok (s.val % 2 ^ s.bit_width)
    keeps : (off w : ℕ) → InRange u off w → Apart off w s → get b out off w ≡ get b u off w

  store : (u : BitfieldUnit) (s : Store) → InRange u s.bit_offset s.bit_width → Stored u s
  store u s r =
      let (out, returns, same_length, bits) = set_field_lem b s.bit_offset s.bit_width s.val u r in
      record {
        out = out;
        returns = returns;
        same_length = same_length;
        reads =
            sym (>>=-of_ok (λ x. get b x s.bit_offset s.bit_width) returns)
            ∙ get-set_field b u s.bit_offset s.bit_width s.val r;
        keeps = λ off w r' apart.
            sym (>>=-of_ok (λ x. get b x off w) returns)
            ∙ get-set_field_disjoint b u s.bit_offset s.bit_width s.val off w r r' (omega arith);
      }

  -- A field apart from all that are stored into reads as before.
  set_all-keeps :
      (ss : List Store) (u : BitfieldUnit) (off w : ℕ)
      → AllInRange u ss
      → InRange u off w
      → All (Apart off w) ss
      → (set_all ss u >>= λ out. get b out off w) ≡ get b u off w
  set_all-keeps [] u off w rs r apart = refl
  set_all-keeps (s ∷ ss) u off w rs r apart =
      let first = store u s rs.0 in
      rw first.returns (
        set_all-keeps ss first.out off w
          (AllInRange-same_length u first.out ss first.same_length rs.1)
          (InRange-same_length first.same_length r) apart.1
        ∙ first.keeps off w r apart.0)

  -- After the run every field of it reads as what was stored into it.
  pub set_all_lem :
      (ss : List Store) (u : BitfieldUnit)
      → AllInRange u ss
      → AllApart ss
      → (out : BitfieldUnit) × (set_all ss u ≡ ok out)
        × All (λ s. get b out s.bit_offset s.bit_width ≡ ok (s.val % 2 ^ s.bit_width)) ss
  set_all_lem [] u rs apart = (u, refl, tt)
  set_all_lem (s ∷ ss) u rs apart =
      let first = store u s rs.0 in
      let rs' = AllInRange-same_length u first.out ss first.same_length rs.1 in
      let (out, returns, reads) = set_all_lem ss first.out rs' apart.1 in
      let kept : get b out s.bit_offset s.bit_width ≡ ok (s.val % 2 ^ s.bit_width) =
        sym (>>=-of_ok (λ x. get b x s.bit_offset s.bit_width) returns)
        ∙ set_all-keeps ss first.out s.bit_offset s.bit_width rs'
            (InRange-same_length first.same_length rs.0) apart.0
        ∙ first.reads in
      (out, >>=-of_ok (set_all ss) first.returns ∙ returns, (kept, reads))
