-- ===== src/Samples/MapTest.antt =====
-- samples/map_test/src/main.rs: a hash map and an array map are written, read and printed.
pub mod Trace
pub mod Program
pub mod Entry
use linux_kernel_development.Prelude.{ok, ℕ, ◌-◌, ◌^◌, Option, none, some, List, [], ◌∷◌, ◌++◌}
use linux_kernel_development.Prelude.Slices.{bytes}
use linux_kernel_development.Prelude.Words.{sign_extend32}
use linux_kernel_development.Task.{get_current_task, get_pid}
use linux_kernel_development.Utils.{Result, and_then}
use linux_kernel_development.Programs.{TpCtx, TpType}
use linux_kernel_development.Programs.Objects.{Tracepoint, new_tracepoint}
use linux_kernel_development.BaseHelper.{
  IuMap, bpf_map_lookup_elem, bpf_map_update_elem, bpf_map_delete_elem, bpf_printk,
}
use linux_kernel_development.Samples.Setting.{Kernel, obj}

-- The formats.
abbrev pub started : List ℕ
started = bytes "Map Testing 1 Start with key %u" ++ 10 ∷ []

abbrev pub array_started : List ℕ
array_started = bytes "Array Map Testing Start" ++ 10 ∷ []

abbrev pub not_found : List ℕ
not_found = bytes "Not found." ++ 10 ∷ []

abbrev pub found_val : List ℕ
found_val = bytes "Found Val=%llu." ++ 10 ∷ []

abbrev pub triggered : List ℕ
triggered = bytes "Rust program triggered from PID %llu" ++ 10 ∷ []

abbrev pub updated : List ℕ
updated = bytes "Map Updated" ++ 10 ∷ []

abbrev pub deleted : List ℕ
deleted = bytes "Map delete key" ++ 10 ∷ []

abbrev pub test1_failed : List ℕ
test1_failed = bytes "map_test1 failed with %lld." ++ 10 ∷ []

abbrev pub test2_failed : List ℕ
test2_failed = bytes "map_test2 failed with %lld." ++ 10 ∷ []

module _ {S : Type 0} (k : Kernel S) where
  -- The `match` on a lookup's result, in the state after the lookup.
  pub report : Option ℕ × S → S
  report (none, s) = bpf_printk k.calls not_found 0 0 0 s
  report (some val, s) = bpf_printk k.calls found_val (k.deref s val) 0 0 s

  -- The pid of the current task, -1 if there is none, as a 64-bit word.
  unfoldable pub current_pid : ℕ
  current_pid = sign_extend32 (elim (get_current_task k.syms k.cpu k.task_at) [
    | none ↦ 2 ^ 32 - 1
    | some task ↦ get_pid task
  ])

  module _ (map_hash : IuMap) where
    -- From the deletion on, and from the update on.
    pub map_test1_delete : ℕ → S → Result × S
    map_test1_delete key s = and_then ((obj k).bpf_map_delete_elem map_hash key s) (λ s1.
        let s2 = bpf_printk k.calls deleted 0 0 0 s1 in
        (Result.ok 0, report ((obj k).bpf_map_lookup_elem map_hash key s2)))

    pub map_test1_update : ℕ → ℕ → S → Result × S
    map_test1_update key pid s =
        and_then ((obj k).bpf_map_update_elem map_hash key pid k.bpf_any s) (λ s1.
          let s2 = bpf_printk k.calls updated 0 0 0 s1 in
          let s3 = report ((obj k).bpf_map_lookup_elem map_hash key s2) in map_test1_delete key s3)

    pub map_test1 : S → Result × S
    map_test1 s =
        let s1 = bpf_printk k.calls started 0 0 0 s in
        let s2 = report ((obj k).bpf_map_lookup_elem map_hash 0 s1) in
        let s3 = bpf_printk k.calls triggered current_pid 0 0 s2 in
        map_test1_update 0 current_pid s3

  pub map_test2 : IuMap → S → Result × S
  map_test2 map_array s =
      let s1 = bpf_printk k.calls array_started 0 0 0 s in
      let s2 = bpf_printk k.calls triggered current_pid 0 0 s1 in
      and_then ((obj k).bpf_map_update_elem map_array 0 current_pid k.bpf_any s2) (λ s3.
        let s4 = bpf_printk k.calls updated 0 0 0 s3 in
        (Result.ok 0, report ((obj k).bpf_map_lookup_elem map_array 0 s4)))

  -- `map_err` with a closure that prints the error.
  pub print_err : List ℕ → Result × S → Result × S
  print_err fmt (Result.ok v, s) = (Result.ok v, s)
  print_err fmt (Result.err e, s) = (Result.err e, bpf_printk k.calls fmt (sign_extend32 e) 0 0 s)

  pub iu_prog1_fn : IuMap → IuMap → TpCtx → S → Result × S
  iu_prog1_fn map_hash map_array ctx s =
      and_then (print_err test1_failed (map_test1 map_hash s))
        (λ s1. print_err test2_failed (map_test2 map_array s1))

  -- `PROG`.
  pub prog : ℕ → IuMap → IuMap → Tracepoint S
  prog bpf_prog_type_tracepoint map_hash map_array =
      new_tracepoint bpf_prog_type_tracepoint (λ ctx s. ok (iu_prog1_fn map_hash map_array ctx s))
        (bytes "iu_prog1") TpType.void
