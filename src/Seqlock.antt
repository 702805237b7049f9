-- ===== src/Seqlock.antt =====
-- inner_unikernel_rt/src/seqlock.rs, with read_once.rs and barrier.rs: the read side of a sequence
-- counter. The kernel may write a shared variable at any time: a variable is the value that it has at
-- each of the reader's loads, and `read_once` is one load. The compiler barriers and the hints on
-- branches change no value; the model makes the loads in the order of the source.
use linux_kernel_development.Prelude.{
  ℕ, ◌≡◌, ◌≢◌, ◌↔◌, refl, arith, Bool, true, false, not, ◌==◌, Outcome, ok, panics, not_implemented,
  ◌>>=◌,
}

-- A variable at each load.
abbrev pub Shared : Type 0 → Type 0
Shared T = ℕ → T

-- `ReadOnce::read_once` of every type that has it, by a volatile read; `read_once` dispatches to it.
unfoldable pub read_volatile : {T : Type 0} → Shared T → ℕ → T
read_volatile var k = var k

unfoldable pub read_once : {T : Type 0} → Shared T → ℕ → T
read_once var k = read_volatile var k

-- `seqcount_t` and `seqcount_latch_t`, as far as they are read.
pub record Seqcount : Type 0 where
  pub sequence : ℕ

pub record SeqcountLatch : Type 0 where
  pub seqcount : Seqcount

-- `likely` and `unlikely`.
unfoldable likely : Bool → Bool
likely b = b

unfoldable pub unlikely : Bool → Bool
unlikely b = b

seqprop_sequence : Shared Seqcount → ℕ → ℕ
seqprop_sequence s k = read_once (λ j. (s j).sequence) k

seqprop_preemptible : Shared Seqcount → Bool
seqprop_preemptible s = false

pub data PropTy : Type 0 where
  ptr sequence preemptible assert : PropTy

-- The trait `SeqProp`, and its instance for each type of result.
pub record SeqProp (T : Type 0) : Type 0 where
  pub seq_prop_of : Shared Seqcount → ℕ → PropTy → Outcome T

unfoldable pub seq_prop_ptr : Shared Seqcount → ℕ → PropTy → Outcome (Shared Seqcount)
seq_prop_ptr s k PropTy.ptr = ok s
seq_prop_ptr s k PropTy.sequence = panics not_implemented
seq_prop_ptr s k PropTy.preemptible = panics not_implemented
seq_prop_ptr s k PropTy.assert = panics not_implemented

unfoldable pub seq_prop_u32 : Shared Seqcount → ℕ → PropTy → Outcome ℕ
unfolding seqprop_sequence
seq_prop_u32 s k PropTy.sequence = ok (seqprop_sequence s k)
seq_prop_u32 s k PropTy.ptr = panics not_implemented
seq_prop_u32 s k PropTy.preemptible = panics not_implemented
seq_prop_u32 s k PropTy.assert = panics not_implemented

unfoldable pub seq_prop_bool : Shared Seqcount → ℕ → PropTy → Outcome Bool
unfolding seqprop_preemptible
seq_prop_bool s k PropTy.preemptible = ok (seqprop_preemptible s)
seq_prop_bool s k PropTy.ptr = panics not_implemented
seq_prop_bool s k PropTy.sequence = panics not_implemented
seq_prop_bool s k PropTy.assert = panics not_implemented

unfoldable pub seq_prop_unit : Shared Seqcount → ℕ → PropTy → Outcome (Unit {0})
seq_prop_unit s k PropTy.assert = ok tt
seq_prop_unit s k PropTy.ptr = panics not_implemented
seq_prop_unit s k PropTy.sequence = panics not_implemented
seq_prop_unit s k PropTy.preemptible = panics not_implemented

instance abbrev pub seqcount_seq_prop : SeqProp (Shared Seqcount)
seqcount_seq_prop = record { seq_prop_of = seq_prop_ptr }

instance abbrev pub u32_seq_prop : SeqProp ℕ
u32_seq_prop = record { seq_prop_of = seq_prop_u32 }

instance abbrev pub bool_seq_prop : SeqProp Bool
bool_seq_prop = record { seq_prop_of = seq_prop_bool }

instance abbrev pub unit_seq_prop : SeqProp (Unit {0})
unit_seq_prop = record { seq_prop_of = seq_prop_unit }

unfoldable pub seq_prop : {T : Type 0} ⦃p : SeqProp T⦄ → Shared Seqcount → ℕ → PropTy → Outcome T
seq_prop ⦃p⦄ s k prop = p.seq_prop_of s k prop

unfoldable pub do_read_seqcount_retry_wrap : Shared Seqcount → ℕ → ℕ → Bool
do_read_seqcount_retry_wrap s start k = unlikely (not (read_once (λ j. (s j).sequence) k == start))

unfoldable pub do_read_seqcount_retry : Shared Seqcount → ℕ → ℕ → Bool
do_read_seqcount_retry s start k = do_read_seqcount_retry_wrap s start k

-- `start` is what the section began with, and `k` the load that ends it.
unfoldable pub read_seqcount_retry : Shared Seqcount → ℕ → ℕ → Outcome Bool
read_seqcount_retry s start k = do
  seqcount ← seq_prop s k PropTy.ptr
  ok (do_read_seqcount_retry seqcount start k)

unfoldable pub raw_read_seqcount_latch : Shared SeqcountLatch → ℕ → ℕ
raw_read_seqcount_latch seq k = read_once (λ j. (seq j).seqcount.sequence) k

unfoldable pub read_seqcount_latch_retry : Shared SeqcountLatch → ℕ → ℕ → Outcome Bool
read_seqcount_latch_retry s start k = read_seqcount_retry (λ j. (s j).seqcount) start k

-- Ending a read section never panics, for all that `seq_prop` may: it asks for a repetition if and
-- only if the sequence word differs from the one that the section began with.
pub read_seqcount_latch_retry_lem :
    (s : Shared SeqcountLatch) (n k : ℕ)
    → (retry : Bool) × (read_seqcount_latch_retry s (raw_read_seqcount_latch s n) k ≡ ok retry)
      × ((retry ≡ true) ↔ ((s k).seqcount.sequence ≢ (s n).seqcount.sequence))
unfolding read_seqcount_latch_retry read_seqcount_retry do_read_seqcount_retry
    do_read_seqcount_retry_wrap seq_prop seq_prop_ptr unlikely read_once read_volatile
    raw_read_seqcount_latch
read_seqcount_latch_retry_lem s n k =
    (not ((s k).seqcount.sequence == (s n).seqcount.sequence), refl, ground arith)
