-- ===== src/Samples/MapTest/Program.antt =====
-- The whole program of samples/map_test/src/main.rs: both tests, over two maps.
use linux_kernel_development.Prelude.{ℕ, ◌≡◌, ◌≢◌, ◌⊎◌, inl, inr, ap, ap₂, refl, ◌∙◌}
use linux_kernel_development.Prelude.{Option, List, length, ◌∷◌}
use linux_kernel_development.Prelude.Words.{as_u32, sign_extend32}
use linux_kernel_development.Utils.{Result, and_then, and_then-of_ok}
use linux_kernel_development.Programs.{TpCtx}
use linux_kernel_development.BaseHelper.{IuMap, bpf_trace_printk, bpf_printk}
use linux_kernel_development.BaseHelper.Maps.{MapContract}
use linux_kernel_development.BaseHelper.Traced.{Line, line, Tracing}
use linux_kernel_development.Samples.Setting.{Kernel}
use linux_kernel_development.Samples.MapTest.{
  array_started, not_found, found_val, triggered, updated, deleted, test1_failed, test2_failed,
  current_pid, map_test1, map_test2, print_err, iu_prog1_fn,
}
use linux_kernel_development.Samples.MapTest.Trace.{
  Stopped, stores, erases, first_lines, map_test1_lem, map_test2_lem,
}

module _ {S : Type 0} (k : Kernel S) (log : S → List Line) where
  -- A run that ended with the status of this call of the kernel, which failed. `lines` had been
  -- printed before the call, and after it only the line that reports the status by `fmt`.
  abbrev pub Reported : (S → ℕ × S) → Result × S → List ℕ → List Line → Type 0
  Reported call (result, s) fmt lines =
      (before : S) × (log before ≡ lines)
      × ((call before).0 ≢ 0)
      × (result ≡ Result.err (as_u32 (call before).0))
      × (log s ≡ line fmt (sign_extend32 (as_u32 (call before).0)) 0 0 ∷ lines)

  -- What is printed, the latest line first, on top of the lines of the first test's start: when the
  -- first test comes to the delete, at its end, when the second one comes to the update, at the end.
  abbrev pub stored_lines : List Line → List Line
  stored_lines first = line found_val (current_pid k) 0 0 ∷ line updated 0 0 0 ∷ first

  abbrev removed_lines : List Line → List Line
  removed_lines first = line not_found 0 0 0 ∷ line deleted 0 0 0 ∷ stored_lines first

  abbrev pub second_lines : List Line → List Line
  second_lines first =
      line triggered (current_pid k) 0 0 ∷ line array_started 0 0 0 ∷ removed_lines first

  abbrev pub all_lines : List Line → List Line
  all_lines first = line found_val (current_pid k) 0 0 ∷ line updated 0 0 0 ∷ second_lines first

  module _ (hash array : IuMap) (hash_loaded : hash.kptr ≢ 0) (array_loaded : array.kptr ≢ 0)
      (hash_held : MapContract k.maps hash.kptr) (array_held : MapContract k.maps array.kptr)
      (hash_derefs : (s : S) (p : ℕ) → k.deref s p ≡ hash_held.at s p)
      (array_derefs : (s : S) (p : ℕ) → k.deref s p ≡ array_held.at s p)
      (hash_tracing : Tracing k.maps k.calls hash.kptr hash_held log)
      (array_tracing : Tracing k.maps k.calls array.kptr array_held log) where
    print_err-Reported :
        (call : S → ℕ × S) (fmt : List ℕ) (run : Result × S) (lines : List Line) (before : S)
        → log before ≡ lines
        → (call before).0 ≢ 0
        → run.0 ≡ Result.err (as_u32 (call before).0)
        → log run.1 ≡ lines
        → Reported call (print_err k fmt run) fmt lines
    unfolding print_err bpf_printk bpf_trace_printk
    print_err-Reported call fmt (Result.ok v, s) lines before logged refused failed silent = cc
    print_err-Reported call fmt (Result.err e, s) lines before logged refused failed silent =
        let status : e ≡ as_u32 (call before).0 = cc in
        (
          before,
          logged,
          refused,
          failed,
          hash_tracing.prints fmt (as_u32 (length fmt)) (sign_extend32 e) 0 0 s
              ∙ ap₂ (λ (n : ℕ) (rest : List Line). line fmt (sign_extend32 n) 0 0 ∷ rest) status
                  silent,
        )

    print_err-of_ok :
        (fmt : List ℕ) (run : Result × S) (v : ℕ) → run.0 ≡ Result.ok v → print_err k fmt run ≡ run
    unfolding print_err
    print_err-of_ok fmt (Result.ok v', s) v done = refl
    print_err-of_ok fmt (Result.err e, s) v done = cc

    stays_Reported :
        (call : S → ℕ × S) (fmt : List ℕ) (run : Result × S) (rest : S → Result × S)
        (lines : List Line)
        → Reported call run fmt lines
        → Reported call (and_then run rest) fmt lines
    unfolding and_then
    stays_Reported call fmt (Result.err e, s) rest lines reported = reported
    stays_Reported call fmt (Result.ok v, s) rest lines (before, logged, refused, failed, printed) =
        cc

    -- What a test that stopped has printed once its error is reported.
    Stopped-Reported :
        (map : IuMap) (loaded : map.kptr ≢ 0) (held : MapContract k.maps map.kptr)
        (derefs : (s : S) (p : ℕ) → k.deref s p ≡ held.at s p)
        (tracing : Tracing k.maps k.calls map.kptr held log) (call : S → ℕ × S) (fmt : List ℕ)
        (run : Result × S) (lines : List Line) (contents : ℕ → Option ℕ)
        → Stopped k map loaded held derefs log tracing call run lines contents
        → Reported call (print_err k fmt run) fmt lines
    Stopped-Reported map loaded held derefs tracing call fmt run lines contents
          (before, seen, refused, failed, after) =
        print_err-Reported call fmt run lines before seen.0 refused failed after.0

    second_test :
        (s : S) (first : List Line)
        → log s ≡ removed_lines first
        → let run = print_err k test2_failed (map_test2 k array s) in
          Reported (stores k array) run test2_failed (second_lines first)
          ⊎ ((run.0 ≡ Result.ok 0) × (log run.1 ≡ all_lines first))
    second_test s first logged =
        elim (map_test2_lem k array array_loaded array_held array_derefs log array_tracing s) [
          | inl stopped ↦
              let reported =
                Stopped-Reported array array_loaded array_held array_derefs array_tracing
                  (stores k array) test2_failed (map_test2 k array s)
                  (line triggered (current_pid k) 0 0 ∷ line array_started 0 0 0 ∷ log s)
                  (array_held.view s) stopped in
              inl (rw logged at reported)
          | inr (done, printed) ↦ rw (print_err-of_ok test2_failed (map_test2 k array s) 0 done) (
              inr (
                done,
                printed
                    ∙ ap
                        (λ (lines : List Line).
                          line found_val (current_pid k) 0 0
                          ∷ line updated 0 0 0
                          ∷ line triggered (current_pid k) 0 0
                          ∷ line array_started 0 0 0
                          ∷ lines)
                        logged,
              ))
        ]

    -- Over two loaded maps whose kernel side keeps its contract, the program ends in one of four
    -- ways. If the kernel refuses to store the pid in the hash map, to delete its key or to store the
    -- pid in the array map, the program returns the status of that call, has printed exactly what
    -- comes before the call, and then one line that reports the status for the test that made the
    -- call. Otherwise it returns 0, having printed the lines of both tests in full.
    pub iu_prog1_fn_lem :
        (ctx : TpCtx) (s : S)
        → let run = iu_prog1_fn k hash array ctx s in
          let first = first_lines k hash hash_loaded hash_held hash_derefs log hash_tracing s in
          Reported (stores k hash) run test1_failed first
          ⊎ Reported (erases k hash) run test1_failed (stored_lines first)
          ⊎ Reported (stores k array) run test2_failed (second_lines first)
          ⊎ ((run.0 ≡ Result.ok 0) × (log run.1 ≡ all_lines first))
    unfolding iu_prog1_fn
    iu_prog1_fn_lem ctx s =
        let call = map_test1 k hash s in
        let first = first_lines k hash hash_loaded hash_held hash_derefs log hash_tracing s in
        elim (map_test1_lem k hash hash_loaded hash_held hash_derefs log hash_tracing s) [
          | inl stopped ↦ inl (
              stays_Reported (stores k hash) test1_failed (print_err k test1_failed call) _ first (
                Stopped-Reported hash hash_loaded hash_held hash_derefs hash_tracing (stores k hash)
                  test1_failed call first _ stopped))
          | inr (inl stopped) ↦ inr (
              inl (
                stays_Reported (erases k hash) test1_failed (print_err k test1_failed call) _
                  (stored_lines first)
                  (Stopped-Reported hash hash_loaded hash_held hash_derefs hash_tracing
                    (erases k hash) test1_failed call (stored_lines first) _ stopped)))
          | inr (inr (done, seen)) ↦ rw (print_err-of_ok test1_failed call 0 done) (
              rw
                (and_then-of_ok call (λ s1. print_err k test2_failed (map_test2 k array s1)) 0 done)
                (inr (inr (second_test call.1 first seen.0))))
        ]
