-- ===== src/Cleanup/Laws.antt =====
-- The clean-up table of panic.rs: what a panic runs.
use linux_kernel_development.Prelude.{
  ℕ, zero, suc, ◌≡◌, refl, ap, sym, ◌∙◌, inl, inr, arith, length-replicate,
}
use linux_kernel_development.Prelude.{Option, none, some, List, [], ◌∷◌, ◌++◌, length, replicate}
use linux_kernel_development.Prelude.{◌==◌, if◌then◌else◌, Bool-cases}
use linux_kernel_development.Prelude.{Outcome, ok, panics, ◌>>=◌}
use linux_kernel_development.Cleanup.{CleanupFn, CleanupEntry, cleanup, default_entry, cleanup_all}

module _ {W : Type 0} where
  -- What a valid entry with a function asks for; nothing otherwise.
  abbrev pub jobs_of : ℕ → Option (CleanupFn W) → ℕ → List (CleanupFn W × ℕ)
  jobs_of valid none arg = []
  jobs_of valid (some f) arg = if valid == 0 then [] else (f, arg) ∷ []

  -- The functions registered in valid entries, with their arguments, in the order of the table.
  abbrev pub live : List (CleanupEntry W) → List (CleanupFn W × ℕ)
  live [] = []
  live (e ∷ es) = jobs_of e.valid e.cleanup_fn e.cleanup_arg ++ live es

  -- Runs them one after the other.
  abbrev pub run : List (CleanupFn W × ℕ) → W → Outcome W
  run [] w = ok w
  run ((f, arg) ∷ fs) w = f arg w >>= run fs

  -- A table of `n` entries that hold nothing.
  abbrev pub cleared : ℕ → List (CleanupEntry W)
  cleared n = replicate n (default_entry W)

  run-jobs_of :
      (valid : ℕ) (f : Option (CleanupFn W)) (arg : ℕ) (fs : List (CleanupFn W × ℕ)) (w : W)
      → run (jobs_of valid f arg ++ fs) w
        ≡ (cleanup (record { valid = valid; cleanup_fn = f; cleanup_arg = arg }) w >>= run fs)
  unfolding cleanup
  run-jobs_of valid none arg fs w = ground arith
  run-jobs_of valid (some f) arg fs w = elim (Bool-cases (valid == 0)) [
    | inl e ↦ rw e
    | inr e ↦ rw e
  ]

  abbrev finish : ℕ → W → Outcome (List (CleanupEntry W) × W)
  finish n w = ok (cleared n, w)

  abbrev extend : List (CleanupEntry W) × W → Outcome (List (CleanupEntry W) × W)
  extend (es, w) = ok (default_entry W ∷ es, w)

  extend-finish : (n : ℕ) (o : Outcome W) → ((o >>= finish n) >>= extend) ≡ (o >>= finish (suc n))
  extend-finish n (ok w) = refl
  extend-finish n (panics p) = refl

  -- One entry, given what the clean-up of the rest does.
  cleanup_all-cons :
      (es : List (CleanupEntry W))
      → ((w : W) → cleanup_all es w ≡ (run (live es) w >>= finish (length es)))
      → (o : Outcome W)
      → (o >>= λ w'. cleanup_all es w' >>= extend)
        ≡ ((o >>= run (live es)) >>= finish (suc (length es)))
  cleanup_all-cons es ih (panics p) = refl
  cleanup_all-cons es ih (ok w) =
      ap (λ o. o >>= extend) (ih w) ∙ extend-finish (length es) (run (live es) w)

  -- The clean-up on a panic runs the function of every valid entry once, in the order of the table,
  -- and leaves every entry empty. If one of them panics, so does the clean-up, with that panic.
  pub cleanup_all_lem :
      (es : List (CleanupEntry W)) (w : W)
      → cleanup_all es w ≡ (run (live es) w >>= λ w'. ok (cleared (length es), w'))
  unfolding cleanup_all
  cleanup_all_lem [] w = refl
  cleanup_all_lem (e ∷ es) w =
      cleanup_all-cons es (cleanup_all_lem es) (cleanup e w)
      ∙ ap (λ o. o >>= finish (suc (length es)))
          (sym (run-jobs_of e.valid e.cleanup_fn e.cleanup_arg (live es) w))

  pub live-cleared : (n : ℕ) → live (cleared n) ≡ []
  unfolding default_entry
  live-cleared zero = refl
  live-cleared (suc n) = live-cleared n

  cleanup_all-cleared : (n : ℕ) (w : W) → cleanup_all (cleared n) w ≡ ok (cleared n, w)
  cleanup_all-cleared n w =
      cleanup_all_lem (cleared n) w ∙ rw (live-cleared n, length-replicate n (default_entry W))

  -- A second clean-up of the same table does nothing: no function runs twice.
  cleanup_all_twice :
      (es : List (CleanupEntry W)) (w : W)
      → (cleanup_all es w >>= λ (es', w'). cleanup_all es' w') ≡ cleanup_all es w
  cleanup_all_twice es w = rw (cleanup_all_lem es w) (again (run (live es) w))
    where
      again :
          (o : Outcome W)
          → ((o >>= finish (length es)) >>= λ (es', w'). cleanup_all es' w')
            ≡ (o >>= finish (length es))
      again (ok w') = cleanup_all-cleared (length es) w'
      again (panics p) = refl
