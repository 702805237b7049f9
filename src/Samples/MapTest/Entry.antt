-- ===== src/Samples/MapTest/Entry.antt =====
-- The program of samples/map_test/src/main.rs as the kernel calls it, through the entry point of
-- tracepoints.
use linux_kernel_development.Prelude.{ℕ, ◌≡◌, ◌≢◌, ◌⊎◌, inl, inr, refl, ◌∙◌, List, ok}
use linux_kernel_development.PerCpu.{Memory}
use linux_kernel_development.Build.{Build}
use linux_kernel_development.Programs.{TpCtx, tracepoint_ctx, entry}
use linux_kernel_development.Programs.Objects.{new_tracepoint, tracepoint_event}
use linux_kernel_development.Programs.Entry.{program_run, verdict_on_error, entry_lem}
use linux_kernel_development.BaseHelper.{IuMap}
use linux_kernel_development.BaseHelper.Maps.{MapContract}
use linux_kernel_development.BaseHelper.Traced.{Line, Tracing}
use linux_kernel_development.Samples.Setting.{Kernel}
use linux_kernel_development.Samples.MapTest.{test1_failed, test2_failed, iu_prog1_fn, prog}
use linux_kernel_development.Samples.MapTest.Trace.{stores, erases, first_lines}
use linux_kernel_development.Samples.MapTest.Program.{
  Reported, stored_lines, second_lines, all_lines, iu_prog1_fn_lem,
}

module _ {S : Type 0} (k : Kernel S) (log : S → List Line) (hash array : IuMap)
    (hash_loaded : hash.kptr ≢ 0) (array_loaded : array.kptr ≢ 0)
    (hash_held : MapContract k.maps hash.kptr) (array_held : MapContract k.maps array.kptr)
    (hash_derefs : (s : S) (p : ℕ) → k.deref s p ≡ hash_held.at s p)
    (array_derefs : (s : S) (p : ℕ) → k.deref s p ≡ array_held.at s p)
    (hash_tracing : Tracing k.maps k.calls hash.kptr hash_held log)
    (array_tracing : Tracing k.maps k.calls array.kptr array_held log) where
  -- Over two loaded maps whose kernel side keeps its contract, with a log of the requests to print,
  -- and under every profile: the entry point gives the kernel 0 whether or not the program failed,
  -- in the state that the program left. Either the kernel refused to store the pid in the hash map,
  -- to delete its key or to store the pid in the array map: then the program's result is the status
  -- of that call, as an error, and the log holds exactly what is printed before the call and one line
  -- that reports the status for the test that made it. Or the log holds the lines of both tests in
  -- full.
  pub entry-prog :
      (b : Build) (xdp_pass tc_act_ok ty : ℕ) (mem : Memory) (ctx : ℕ) (s : S)
      → let (result, s') = iu_prog1_fn k hash array TpCtx.void s in
        let first = first_lines k hash hash_loaded hash_held hash_derefs log hash_tracing s in
        (entry b xdp_pass tc_act_ok (tracepoint_event (prog k ty hash array) mem ctx) s
          ≡ ok (0, s'))
        × (Reported k log (stores k hash) (result, s') test1_failed first
            ⊎ Reported k log (erases k hash) (result, s') test1_failed (stored_lines k log first)
            ⊎ Reported k log (stores k array) (result, s') test2_failed (second_lines k log first)
            ⊎ (log s' ≡ all_lines k log first))
  unfolding prog new_tracepoint tracepoint_event program_run verdict_on_error tracepoint_ctx
  entry-prog b xdp_pass tc_act_ok ty mem ctx s =
      let called =
        entry_lem b xdp_pass tc_act_ok (tracepoint_event (prog k ty hash array) mem ctx) s in
      elim (iu_prog1_fn_lem k log hash array hash_loaded array_loaded hash_held array_held
        hash_derefs array_derefs hash_tracing array_tracing TpCtx.void s) [
          | inl (before, logged, refused, failed, printed) ↦
              (called ∙ rw failed refl, inl (before, logged, refused, failed, printed))
          | inr (inl (before, logged, refused, failed, printed)) ↦
              (called ∙ rw failed refl, inr (inl (before, logged, refused, failed, printed)))
          | inr (inr (inl (before, logged, refused, failed, printed))) ↦
              (called ∙ rw failed refl, inr (inr (inl (before, logged, refused, failed, printed))))
          | inr (inr (inr (done, printed))) ↦ (called ∙ rw done refl, inr (inr (inr printed)))
        ]
