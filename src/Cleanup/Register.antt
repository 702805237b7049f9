-- ===== src/Cleanup/Register.antt =====
-- Registering an object in the clean-up table of panic.rs.
use linux_kernel_development.Prelude.{
  ℕ, zero, suc, ◌+◌, ◌<◌, ◌≡◌, ◌≢◌, ◌↔◌, refl, ap, sym, ◌∙◌, inl, inr, arith, get_elem?-lt,
}
use mathlib.Core.List.{append_assoc}
use linux_kernel_development.Prelude.{Option, none, some, List, [], ◌∷◌, ◌++◌, get_elem?, set}
use linux_kernel_development.Prelude.{◌==◌, Bool-cases}
use linux_kernel_development.Prelude.{ok, panics, object_count_exceeded}
use linux_kernel_development.Cleanup.Laws.{jobs_of, live}
use linux_kernel_development.Cleanup.{
  CleanupFn, CleanupEntry, new_entry, find_from, find_next_empty_entry, index_mut,
}

module _ {W : Type 0} where
  -- Entry `i` is `e`, it is free, and all entries before it are taken.
  pub record FirstFree (es : List (CleanupEntry W)) (i : ℕ) (e : CleanupEntry W) : Type 0 where
    pub at_index : get_elem? es i ≡ some e
    pub free : e.valid ≡ 0
    pub taken_before :
        (j : ℕ) (e' : CleanupEntry W) → j < i → get_elem? es j ≡ some e' → e'.valid ≢ 0

  FirstFree-cons :
      (x : CleanupEntry W) {es : List (CleanupEntry W)} {i : ℕ} {e : CleanupEntry W}
      → FirstFree es i e
      → x.valid ≢ 0
      → (j : ℕ) (e' : CleanupEntry W) → j < suc i
      → get_elem? (x ∷ es) j ≡ some e'
      → e'.valid ≢ 0
  FirstFree-cons x first taken zero e' lt at = ground arith
  FirstFree-cons x first taken (suc j) e' lt at = first.taken_before j e' (omega arith) at

  find_from_lem :
      (es : List (CleanupEntry W)) (idx k : ℕ) (e : CleanupEntry W)
      → find_from idx es ≡ ok (k, e)
      → (i : ℕ) × (k ≡ idx + i) × FirstFree es i e
  unfolding find_from
  find_from_lem [] idx k e h = cc
  find_from_lem (x ∷ es) idx k e h = elim (Bool-cases (x.valid == 0)) [
    | inl free ↦ (
      0,
      ground arith,
      record {
        at_index = ground arith;
        free = ground arith;
        taken_before = λ j e' lt at. absurd (omega arith);
      },
    )
    | inr taken ↦
        let rest : find_from (idx + 1) es ≡ ok (k, e) = ground arith in
        let (i, place, first) = find_from_lem es (idx + 1) k e rest in
        (
          suc i,
          omega arith,
          record {
            at_index = first.at_index;
            free = first.free;
            taken_before = FirstFree-cons x first (ground arith);
          },
        )
  ]

  -- If the search for a free entry returns, it returns the first free entry of the table and its
  -- index.
  find_next_empty_entry_lem :
      (es : List (CleanupEntry W)) (i : ℕ) (e : CleanupEntry W)
      → find_next_empty_entry es ≡ ok (i, e)
      → FirstFree es i e
  unfolding find_next_empty_entry
  find_next_empty_entry_lem es i e h =
      let (k, place, first) = find_from_lem es 0 i e h in
      let same : k ≡ i = omega arith in rw same at first

  -- Every entry of the table is taken.
  pub AllTaken : List (CleanupEntry W) → Type 0
  AllTaken [] = Unit
  AllTaken (e ∷ es) = (e.valid ≢ 0) × AllTaken es

  find_from-panics_iff :
      (es : List (CleanupEntry W)) (idx : ℕ)
      → (find_from idx es ≡ panics object_count_exceeded) ↔ AllTaken es
  unfolding find_from AllTaken
  find_from-panics_iff [] idx = ground arith
  find_from-panics_iff (x ∷ es) idx = ground (arith, find_from-panics_iff es (idx + 1))

  -- The search for a free entry panics exactly when every entry of the table is taken.
  pub find_next_empty_entry-panics_iff :
      (es : List (CleanupEntry W))
      → (find_next_empty_entry es ≡ panics object_count_exceeded) ↔ AllTaken es
  unfolding find_next_empty_entry
  find_next_empty_entry-panics_iff es = find_from-panics_iff es 0

  -- `live` after a new entry was put in a free place: one more job, at that place in the order.
  record Registered (es es' : List (CleanupEntry W)) (job : CleanupFn W × ℕ) : Type 0 where
    before : List (CleanupFn W × ℕ)
    behind : List (CleanupFn W × ℕ)
    jobs : live es ≡ before ++ behind
    new_jobs : live es' ≡ before ++ job ∷ behind

  jobs_of-free :
      (valid : ℕ) (f : Option (CleanupFn W)) (arg : ℕ) → valid ≡ 0 → jobs_of valid f arg ≡ []
  jobs_of-free valid none arg h = refl
  jobs_of-free valid (some f) arg h = ground arith

  Registered-set :
      (es : List (CleanupEntry W)) (i : ℕ) (e : CleanupEntry W) (f : CleanupFn W) (arg : ℕ)
      → get_elem? es i ≡ some e
      → e.valid ≡ 0
      → Registered es (set es i (new_entry f arg)) (f, arg)
  unfolding new_entry
  Registered-set [] i e f arg at free = cc
  Registered-set (x ∷ es) zero e f arg at free = record {
    before = [];
    behind = live es;
    jobs =
        ap (λ js. js ++ live es) (jobs_of-free x.valid x.cleanup_fn x.cleanup_arg (ground arith));
    new_jobs = refl;
  }
  Registered-set (x ∷ es) (suc i) e f arg at free =
      let r = Registered-set es i e f arg at free in
      let own = jobs_of x.valid x.cleanup_fn x.cleanup_arg in
      record {
        before = own ++ r.before;
        behind = r.behind;
        jobs = ap (λ js. own ++ js) r.jobs ∙ sym (append_assoc own r.before r.behind);
        new_jobs =
            ap (λ js. own ++ js) r.new_jobs ∙ sym (append_assoc own r.before ((f, arg) ∷ r.behind));
      }

  -- Registering a function where the search points returns a table in which exactly that job is new,
  -- and those that a panic ran before still run in their order.
  pub register_lem :
      (es : List (CleanupEntry W)) (i : ℕ) (e : CleanupEntry W) (f : CleanupFn W) (arg : ℕ)
      → find_next_empty_entry es ≡ ok (i, e)
      → (es' : List (CleanupEntry W)) × (index_mut es i (new_entry f arg) ≡ ok es')
        × (before : List (CleanupFn W × ℕ)) × (behind : List (CleanupFn W × ℕ)) × (live es
            ≡ before ++ behind)
        × (live es' ≡ before ++ (f, arg) ∷ behind)
  unfolding index_mut
  register_lem es i e f arg h =
      let first = find_next_empty_entry_lem es i e h in
      let r = Registered-set es i e f arg first.at_index first.free in
      let inside = get_elem?-lt es i first.at_index in
      (set es i (new_entry f arg), ground arith, r.before, r.behind, r.jobs, r.new_jobs)
