-- ===== src/Samples/MapTest/Trace.antt =====
-- What samples/map_test/src/main.rs prints and leaves in its maps, over kernel maps that keep their
-- contract.
use linux_kernel_development.Prelude.{ℕ, ◌≡◌, ◌≢◌, ◌⊎◌, inl, inr, refl, sym, ◌∙◌}
use linux_kernel_development.Prelude.{
  Bool, true, false, List, ◌∷◌, Option, none, some, if◌then◌else◌,
}
use linux_kernel_development.Utils.{Result, and_then, and_then-of_ok}
use linux_kernel_development.BaseHelper.{
  IuMap, bpf_map_lookup_elem, bpf_map_update_elem, bpf_map_delete_elem, bpf_printk,
}
use linux_kernel_development.BaseHelper.Maps.{MapContract, found}
use linux_kernel_development.BaseHelper.Traced.{
  Line, line, Tracing, Shows, Refused, bpf_printk-Shows, lookup-Shows, update-Shows, delete-Shows,
}
use linux_kernel_development.Samples.Setting.{Kernel}
use linux_kernel_development.Samples.MapTest.{
  started, array_started, not_found, found_val, triggered, updated, deleted, report, current_pid,
  map_test1_delete, map_test1_update, map_test1, map_test2,
}

-- The line that reports what a map holds for a key.
abbrev pub val_line : Option ℕ → Line
val_line none = line not_found 0 0 0
val_line (some v) = line found_val v 0 0

-- Storing a value for a key and removing the key again.
put_removed :
    {V : Type 0} (here : Bool) (v : V) (old : Option V)
    → (if here then none else if here then some v else old) ≡ (if here then none else old)
put_removed true v old = refl
put_removed false v old = refl

-- The calls of the kernel that a test makes to store the pid for the key 0, and to delete the key.
abbrev pub stores : {S : Type 0} → Kernel S → IuMap → S → ℕ × S
stores k map s = k.maps.update map.kptr 0 (current_pid k) k.bpf_any s

abbrev pub erases : {S : Type 0} → Kernel S → IuMap → S → ℕ × S
erases k map s = k.maps.delete map.kptr 0 s

module _ {S : Type 0} (k : Kernel S) (map : IuMap) (loaded : map.kptr ≢ 0)
    (held : MapContract k.maps map.kptr) (derefs : (s : S) (p : ℕ) → k.deref s p ≡ held.at s p)
    (log : S → List Line) (tracing : Tracing k.maps k.calls map.kptr held log) where
  abbrev Seen : S → List Line → (ℕ → Option ℕ) → Type 0
  Seen s lines contents = Shows k.maps k.calls k.einval map loaded held log tracing s lines contents

  -- Printing a lookup's result adds the line of what the lookup found.
  report-Seen :
      (looked : Option ℕ × S) (lines : List Line) (contents : ℕ → Option ℕ)
      → Seen looked.1 lines contents
      → Seen
          (report k looked)
          (val_line (found k.maps k.einval map loaded held looked) ∷ lines)
          contents
  unfolding report
  report-Seen (none, s) lines contents seen =
      bpf_printk-Shows k.maps k.calls k.einval map loaded held log tracing not_found 0 0 0 seen
  report-Seen (some p, s) lines contents seen = rw (sym (derefs s p)) (
      bpf_printk-Shows k.maps k.calls k.einval map loaded held log tracing found_val (k.deref s p) 0
        0 seen)

  lookup_report-Seen :
      (key : ℕ) (s : S) (lines : List Line) (contents : ℕ → Option ℕ)
      → Seen s lines contents
      → Seen
          (report k (bpf_map_lookup_elem k.maps k.einval map key s))
          (val_line (contents key) ∷ lines)
          contents
  lookup_report-Seen key s lines contents seen =
      let (after, finds) =
        lookup-Shows k.maps k.calls k.einval map loaded held log tracing key seen in
      rw (sym finds)
        (report-Seen (bpf_map_lookup_elem k.maps k.einval map key s) lines contents after)

  -- A run that ended with the status of this call of the kernel, with what was printed and what the
  -- map held before and after the call.
  abbrev pub Stopped : (S → ℕ × S) → Result × S → List Line → (ℕ → Option ℕ) → Type 0
  Stopped call run lines contents =
      Refused k.maps k.calls k.einval map loaded held log tracing call run lines contents

  -- A run that returned 0, with what was printed and what the map holds then.
  abbrev pub Finished : Result × S → List Line → (ℕ → Option ℕ) → Type 0
  Finished (result, s) lines contents = (result ≡ Result.ok 0) × Seen s lines contents

  stops :
      (asked : S → ℕ × S) (call : Result × S) (rest : S → Result × S) (lines : List Line)
      (contents : ℕ → Option ℕ)
      → Stopped asked call lines contents
      → Stopped asked (and_then call rest) lines contents
  unfolding and_then
  stops asked (Result.err e, s) rest lines contents stopped = stopped
  stops asked (Result.ok v, s) rest lines contents (before, seen, refused, failed, after) = cc

  map_test1_delete_lem :
      (key : ℕ) (s : S) (lines : List Line) (contents : ℕ → Option ℕ)
      → Seen s lines contents
      → let removed = λ (key' : ℕ). if held.same key key' then none else contents key' in
        Stopped (λ t. k.maps.delete map.kptr key t) (map_test1_delete k map key s) lines contents
        ⊎ Finished
            (map_test1_delete k map key s)
            (line not_found 0 0 0 ∷ line deleted 0 0 0 ∷ lines)
            removed
  unfolding map_test1_delete
  map_test1_delete_lem key s lines contents seen =
      let call = bpf_map_delete_elem k.maps k.einval map key s in
      elim (delete-Shows k.maps k.calls k.einval map loaded held log tracing key seen) [
        | inl stopped ↦
            inl (stops (λ t. k.maps.delete map.kptr key t) call _ lines contents stopped)
        | inr (v, done, after) ↦
            let removed = λ (key' : ℕ). if held.same key key' then none else contents key' in
            let gone : removed key ≡ none = rw (held.same_refl key) refl in
            let printed =
              bpf_printk-Shows k.maps k.calls k.einval map loaded held log tracing deleted 0 0 0
                after in
            let reported =
              lookup_report-Seen key (bpf_printk k.calls deleted 0 0 0 call.1)
                (line deleted 0 0 0 ∷ lines) removed printed in
            inr (rw (and_then-of_ok call _ v done) (refl, rw gone at reported))
      ]

  map_test1_update_lem :
      (key pid : ℕ) (s : S) (lines : List Line) (contents : ℕ → Option ℕ)
      → Seen s lines contents
      → let removed = λ (key' : ℕ). if held.same key key' then none else contents key' in
        let stored = line found_val pid 0 0 ∷ line updated 0 0 0 ∷ lines in
        Stopped
          (λ t. k.maps.update map.kptr key pid k.bpf_any t)
          (map_test1_update k map key pid s)
          lines
          contents
        ⊎ Stopped
            (λ t. k.maps.delete map.kptr key t)
            (map_test1_update k map key pid s)
            stored
            (λ key'. if held.same key key' then some pid else contents key')
        ⊎ Finished
            (map_test1_update k map key pid s)
            (line not_found 0 0 0 ∷ line deleted 0 0 0 ∷ stored)
            removed
  unfolding map_test1_update
  map_test1_update_lem key pid s lines contents seen =
      let call = bpf_map_update_elem k.maps k.einval map key pid k.bpf_any s in
      elim (update-Shows k.maps k.calls k.einval map loaded held log tracing key pid k.bpf_any
        seen) [
          | inl stopped ↦ inl (
              stops (λ t. k.maps.update map.kptr key pid k.bpf_any t) call _ lines contents stopped)
          | inr (v, done, after) ↦
              let put = λ (key' : ℕ). if held.same key key' then some pid else contents key' in
              let there : put key ≡ some pid = rw (held.same_refl key) refl in
              let printed =
                bpf_printk-Shows k.maps k.calls k.einval map loaded held log tracing updated 0 0 0
                  after in
              let reported =
                lookup_report-Seen key (bpf_printk k.calls updated 0 0 0 call.1)
                  (line updated 0 0 0 ∷ lines) put printed in
              let ended =
                map_test1_delete_lem key
                  (report k (
                    bpf_map_lookup_elem k.maps k.einval map key
                      (bpf_printk k.calls updated 0 0 0 call.1)))
                  (line found_val pid 0 0 ∷ line updated 0 0 0 ∷ lines) put
                  (rw there at reported) in
              rw (and_then-of_ok call _ v done) (elim ended [
                | inl stopped ↦ inr (inl stopped)
                | inr (fine, gone) ↦ inr (
                    inr (
                      fine,
                      (
                        gone.0,
                        λ key'. gone.1 key' ∙ put_removed (held.same key key') pid (contents key'),
                      ),
                    ))
              ])
        ]

  -- What `map_test1` has printed when it comes to the update.
  abbrev pub first_lines : S → List Line
  first_lines s =
      line triggered (current_pid k) 0 0 ∷ val_line (held.view s 0) ∷ line started 0 0 0 ∷ log s

  -- Over a loaded hash map whose kernel side keeps its contract, with a log of the requests to
  -- print: `map_test1` prints what the map held for the key 0 and the pid, and then ends in one of
  -- three ways. The kernel refused to store the pid: the test returns the status of that call and
  -- has printed no more, and the map holds what it held. The kernel refused to delete the key: the
  -- test returns the status of that call, having printed that the map holds the pid, as it then does.
  -- Or neither was refused: it returns 0, having printed at the end that the key is gone; the map no longer
  -- holds it, and is otherwise what it was before.
  pub map_test1_lem :
      (s : S)
      → let run = map_test1 k map s in
        let stored = line found_val (current_pid k) 0 0 ∷ line updated 0 0 0 ∷ first_lines s in
        Stopped (stores k map) run (first_lines s) (held.view s)
        ⊎ Stopped
            (erases k map)
            run
            stored
            (λ key. if held.same 0 key then some (current_pid k) else held.view s key)
        ⊎ Finished run
            (line not_found 0 0 0 ∷ line deleted 0 0 0 ∷ stored)
            (λ key. if held.same 0 key then none else held.view s key)
  unfolding map_test1
  map_test1_lem s =
      let s1 = bpf_printk k.calls started 0 0 0 s in
      let first =
        bpf_printk-Shows k.maps k.calls k.einval map loaded held log tracing started 0 0 0 {s = s}
          {lines = log s} {contents = held.view s} (refl, λ key. refl) in
      let looked = lookup_report-Seen 0 s1 (line started 0 0 0 ∷ log s) (held.view s) first in
      let s2 = report k (bpf_map_lookup_elem k.maps k.einval map 0 s1) in
      map_test1_update_lem 0 (current_pid k) (bpf_printk k.calls triggered (current_pid k) 0 0 s2)
        (first_lines s) (held.view s)
        (bpf_printk-Shows k.maps k.calls k.einval map loaded held log tracing triggered
          (current_pid k) 0 0 looked)

  pub map_test2_lem :
      (s : S)
      → let run = map_test2 k map s in
        let lines = line triggered (current_pid k) 0 0 ∷ line array_started 0 0 0 ∷ log s in
        Stopped (stores k map) run lines (held.view s)
        ⊎ ((run.0 ≡ Result.ok 0)
            × (log run.1 ≡ line found_val (current_pid k) 0 0 ∷ line updated 0 0 0 ∷ lines))
  unfolding map_test2
  map_test2_lem s =
      let first =
        bpf_printk-Shows k.maps k.calls k.einval map loaded held log tracing array_started 0 0 0
          {s = s} {lines = log s} {contents = held.view s} (refl, λ key. refl) in
      let second =
        bpf_printk-Shows k.maps k.calls k.einval map loaded held log tracing triggered
          (current_pid k) 0 0 first in
      let lines = line triggered (current_pid k) 0 0 ∷ line array_started 0 0 0 ∷ log s in
      let s2 =
        bpf_printk k.calls triggered (current_pid k) 0 0
          (bpf_printk k.calls array_started 0 0 0 s) in
      let call = bpf_map_update_elem k.maps k.einval map 0 (current_pid k) k.bpf_any s2 in
      elim (update-Shows k.maps k.calls k.einval map loaded held log tracing 0 (current_pid k)
        k.bpf_any second) [
          | inl stopped ↦ inl (stops (stores k map) call _ lines (held.view s) stopped)
          | inr (v, done, after) ↦
              let put =
                λ (key' : ℕ). if held.same 0 key' then some (current_pid k) else held.view s key' in
              let there : put 0 ≡ some (current_pid k) = rw (held.same_refl 0) refl in
              let printed =
                bpf_printk-Shows k.maps k.calls k.einval map loaded held log tracing updated 0 0 0
                  after in
              let reported =
                lookup_report-Seen 0 (bpf_printk k.calls updated 0 0 0 call.1)
                  (line updated 0 0 0 ∷ lines) put printed in
              let shown = rw there at reported in
              rw (and_then-of_ok call _ v done) (inr (refl, shown.0))
        ]
