-- ===== src/BaseHelper/Traced.antt =====
-- What a program sees of its helpers (base_helper.rs): a log of the lines that it asked to print, and
-- the contents of a map. The helpers of a loaded map are operations on these two.
use linux_kernel_development.Prelude.{ℕ, ◌≡◌, ◌≢◌, ◌⊎◌, inl, inr, ap, arith, ◌∙◌}
use linux_kernel_development.Prelude.{List, length, ◌∷◌, Option, none, some, if◌then◌else◌}
use linux_kernel_development.Prelude.Words.{as_u32}
use linux_kernel_development.Utils.{Result, Result-cases, to_result32}
use linux_kernel_development.BaseHelper.{
  MapCalls, Calls, IuMap, bpf_map_lookup_elem, bpf_map_update_elem, bpf_map_delete_elem,
  bpf_trace_printk, bpf_printk,
}
use linux_kernel_development.BaseHelper.Maps.{
  MapContract, found, bpf_map_lookup_elem_lem, bpf_map_update_elem-view, bpf_map_delete_elem-view,
}

-- A request to print: the format and its three arguments.
pub record Line : Type 0 where
  pub fmt : List ℕ
  pub arg1 : ℕ
  pub arg2 : ℕ
  pub arg3 : ℕ

abbrev pub line : List ℕ → ℕ → ℕ → ℕ → Line
line fmt a b c = record { fmt = fmt; arg1 = a; arg2 = b; arg3 = c }

-- The kernel's calls next to a map: `log` holds the requests to print, the latest first. Printing
-- adds one and leaves the map alone, and the calls of the map add none.
pub record Tracing {S K V : Type 0} (k : MapCalls S K V) (c : Calls S) (p : ℕ)
    (held : MapContract k p) (log : S → List Line) : Type 0 where
  pub prints :
      (fmt : List ℕ) (size arg1 arg2 arg3 : ℕ) (s : S)
      → log (c.trace_printk fmt size arg1 arg2 arg3 s).1 ≡ line fmt arg1 arg2 arg3 ∷ log s
  pub print_keeps :
      (fmt : List ℕ) (size arg1 arg2 arg3 : ℕ) (s : S) (key : K)
      → held.view (c.trace_printk fmt size arg1 arg2 arg3 s).1 key ≡ held.view s key
  pub lookup_silent : (key : K) (s : S) → log (k.lookup p key s).1 ≡ log s
  pub update_silent :
      (key : K) (v : V) (flags : ℕ) (s : S) → log (k.update p key v flags s).1 ≡ log s
  pub delete_silent : (key : K) (s : S) → log (k.delete p key s).1 ≡ log s

module _ {S K V : Type 0} (k : MapCalls S K V) (c : Calls S) (einval : ℕ) (map : IuMap)
    (loaded : map.kptr ≢ 0) (held : MapContract k map.kptr) (log : S → List Line)
    (tracing : Tracing k c map.kptr held log) where
  -- The log and the map's contents in a state.
  abbrev pub Shows : S → List Line → (K → Option V) → Type 0
  Shows s lines contents = (log s ≡ lines) × ((key : K) → held.view s key ≡ contents key)

  pub bpf_printk-Shows :
      (fmt : List ℕ) (arg1 arg2 arg3 : ℕ) {s : S} {lines : List Line} {contents : K → Option V}
      → Shows s lines contents
      → Shows (bpf_printk c fmt arg1 arg2 arg3 s) (line fmt arg1 arg2 arg3 ∷ lines) contents
  unfolding bpf_printk bpf_trace_printk
  bpf_printk-Shows fmt arg1 arg2 arg3 {s} {lines} {contents} (logged, holds) = (
    tracing.prints fmt (as_u32 (length fmt)) arg1 arg2 arg3 s
        ∙ ap (λ rest. line fmt arg1 arg2 arg3 ∷ rest) logged,
    λ key. tracing.print_keeps fmt (as_u32 (length fmt)) arg1 arg2 arg3 s key ∙ holds key,
  )

  lookup-log : (key : K) (s : S) → log (bpf_map_lookup_elem k einval map key s).1 ≡ log s
  unfolding bpf_map_lookup_elem
  lookup-log key s = ground (arith, tracing.lookup_silent key s)

  pub lookup-Shows :
      (key : K) {s : S} {lines : List Line} {contents : K → Option V}
      → Shows s lines contents
      → Shows (bpf_map_lookup_elem k einval map key s).1 lines contents
        × (found k einval map loaded held (bpf_map_lookup_elem k einval map key s) ≡ contents key)
  lookup-Shows key {s} (logged, holds) =
      let (finds, keeps) = bpf_map_lookup_elem_lem k einval map loaded held key s in
      ((lookup-log key s ∙ logged, λ key'. keeps key' ∙ holds key'), finds ∙ holds key)

  update-log :
      (key : K) (v : V) (flags : ℕ) (s : S)
      → log (bpf_map_update_elem k einval map key v flags s).1 ≡ log s
  unfolding bpf_map_update_elem
  update-log key v flags s = ground (arith, tracing.update_silent key v flags s)

  -- A run ended with the status of a call of the kernel that failed. The call was made with this log
  -- and these contents, and neither has changed since.
  abbrev pub Refused : (S → ℕ × S) → Result × S → List Line → (K → Option V) → Type 0
  Refused call (result, s') lines contents =
      (before : S) × Shows before lines contents
      × ((call before).0 ≢ 0)
      × (result ≡ Result.err (as_u32 (call before).0))
      × Shows s' lines contents

  update-err :
      (key : K) (v : V) (flags : ℕ) (s : S) (e : ℕ)
      → (bpf_map_update_elem k einval map key v flags s).0 ≡ Result.err e
      → ((k.update map.kptr key v flags s).0 ≢ 0)
        × ((bpf_map_update_elem k einval map key v flags s).0
            ≡ Result.err (as_u32 (k.update map.kptr key v flags s).0))
        × ((bpf_map_update_elem k einval map key v flags s).1 ≡ (k.update map.kptr key v flags s).1)
  unfolding bpf_map_update_elem to_result32
  update-err key v flags s e failed = (λ zero. ground arith, ground arith, ground arith)

  -- An update either is refused, or puts the value into the map.
  pub update-Shows :
      (key : K) (v : V) (flags : ℕ) {s : S} {lines : List Line} {contents : K → Option V}
      → Shows s lines contents
      → let (result, s') = bpf_map_update_elem k einval map key v flags s in
        Refused (λ t. k.update map.kptr key v flags t) (result, s') lines contents
        ⊎ ((r : ℕ) × (result ≡ Result.ok r)
            × Shows s' lines (λ key'. if held.same key key' then some v else contents key'))
  update-Shows key v flags {s} {contents = contents} (logged, holds) =
      elim (Result-cases (bpf_map_update_elem k einval map key v flags s).0) [
        | inl (e, failed) ↦
            let (refused, status, after) = update-err key v flags s e failed in
            let kept : (key' : K)
                → held.view (bpf_map_update_elem k einval map key v flags s).1 key'
                  ≡ contents key' =
              λ key'.
                ap (λ t. held.view t key') after
                ∙ held.update_refused key v flags s refused key'
                ∙ holds key' in
            inl (s, (logged, holds), refused, status, (update-log key v flags s ∙ logged, kept))
        | inr (r, done) ↦
            let s' = (bpf_map_update_elem k einval map key v flags s).1 in
            let stores =
              bpf_map_update_elem-view k einval map loaded held key v flags s s' r
                (ap (λ (res : Result). (res, s')) done) in
            inr (
              r,
              done,
              (
                update-log key v flags s ∙ logged,
                λ key'.
                    stores key'
                    ∙ ap (λ old. if held.same key key' then some v else old) (holds key'),
              ),
            )
      ]

  delete-log : (key : K) (s : S) → log (bpf_map_delete_elem k einval map key s).1 ≡ log s
  unfolding bpf_map_delete_elem
  delete-log key s = ground (arith, tracing.delete_silent key s)

  delete-err :
      (key : K) (s : S) (e : ℕ)
      → (bpf_map_delete_elem k einval map key s).0 ≡ Result.err e
      → ((k.delete map.kptr key s).0 ≢ 0)
        × ((bpf_map_delete_elem k einval map key s).0
            ≡ Result.err (as_u32 (k.delete map.kptr key s).0))
        × ((bpf_map_delete_elem k einval map key s).1 ≡ (k.delete map.kptr key s).1)
  unfolding bpf_map_delete_elem to_result32
  delete-err key s e failed = (λ zero. ground arith, ground arith, ground arith)

  -- A delete either is refused, or takes the key out of the map.
  pub delete-Shows :
      (key : K) {s : S} {lines : List Line} {contents : K → Option V}
      → Shows s lines contents
      → let (result, s') = bpf_map_delete_elem k einval map key s in
        Refused (λ t. k.delete map.kptr key t) (result, s') lines contents
        ⊎ ((r : ℕ) × (result ≡ Result.ok r)
            × Shows s' lines (λ key'. if held.same key key' then none else contents key'))
  delete-Shows key {s} {contents = contents} (logged, holds) =
      elim (Result-cases (bpf_map_delete_elem k einval map key s).0) [
        | inl (e, failed) ↦
            let (refused, status, after) = delete-err key s e failed in
            let kept : (key' : K)
                → held.view (bpf_map_delete_elem k einval map key s).1 key' ≡ contents key' =
              λ key'.
                ap (λ t. held.view t key') after
                ∙ held.delete_refused key s refused key'
                ∙ holds key' in
            inl (s, (logged, holds), refused, status, (delete-log key s ∙ logged, kept))
        | inr (r, done) ↦
            let s' = (bpf_map_delete_elem k einval map key s).1 in
            let removes =
              bpf_map_delete_elem-view k einval map loaded held key s s' r
                (ap (λ (res : Result). (res, s')) done) in
            inr (
              r,
              done,
              (
                delete-log key s ∙ logged,
                λ key'.
                    removes key'
                    ∙ ap (λ old. if held.same key key' then none else old) (holds key'),
              ),
            )
      ]
