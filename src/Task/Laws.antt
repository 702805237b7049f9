-- ===== src/Task/Laws.antt =====
-- What the accessors of task_struct.rs return.
use linux_kernel_development.Prelude.{ℕ, ◌+◌, ◌-◌, ◌^◌, ◌≤◌, ◌<◌, ◌≡◌, ◌∙◌, arith, min}
use linux_kernel_development.Prelude.{List, ◌++◌, length, take, drop, set, length-set}
use linux_kernel_development.Prelude.{ok}
use linux_kernel_development.Prelude.Slices.{
  copy_prefix-fits, length-copied, c_string, c_string-terminated,
}
use linux_kernel_development.Prelude.Words.{neg32}
use linux_kernel_development.Build.{Build, sub64-fits, add64-fits}
use linux_kernel_development.Registers.{pt_regs_size}
use linux_kernel_development.Task.{TaskStruct, get_comm, get_pt_regs, thread_size}

module _ (b : Build) (einval : ℕ) (t : TaskStruct) (buf : List ℕ) where
  -- With room for a character and a NUL, on a command name with its own NUL place, the call succeeds.
  -- The buffer keeps its length, and C reads from it the command name up to its NUL, cut to the
  -- characters that fit before the last byte of the buffer and of the name's array.
  pub get_comm-copies :
      1 < length buf
      → 1 < length t.kptr.comm
      → (out : List ℕ) × (get_comm b einval t buf ≡ ok (0, out))
        × (length out ≡ length buf)
        × (c_string out ≡ take (min (length buf) (length t.kptr.comm) - 1) (c_string t.kptr.comm))
  unfolding get_comm
  get_comm-copies room named =
      let comm : List ℕ = t.kptr.comm in
      let size : ℕ = min (length buf) (length comm) - 1 in
      let copied : List ℕ = take size comm ++ drop size buf in
      let same_length = length-copied buf comm size (omega arith) (omega arith) in
      (
        set copied size 0,
        ground (
          arith,
          sub64-fits b (min (length buf) (length comm)) 1,
          copy_prefix-fits buf comm size,
          same_length,
        ),
        length-set copied size 0 ∙ same_length,
        c_string-terminated size comm buf (omega arith) (omega arith),
      )

  -- A buffer too small for a character and a NUL is refused with -EINVAL and left alone.
  get_comm-refuses :
      length buf ≤ 1 → 1 < length t.kptr.comm → get_comm b einval t buf ≡ ok (neg32 einval, buf)
  unfolding get_comm
  get_comm-refuses small named =
      ground (arith, sub64-fits b (min (length buf) (length t.kptr.comm)) 1)

-- If the task's stack ends below 2 ^ 64, the saved registers fill the top of it: the call does not
-- overflow, the structure lies inside the stack and ends where the stack ends.
get_pt_regs_lem :
    (b : Build) (t : TaskStruct)
    → t.kptr.stack + thread_size < 2 ^ 64
    → (addr : ℕ) × (get_pt_regs b t ≡ ok addr)
      × (t.kptr.stack ≤ addr)
      × (addr + pt_regs_size ≡ t.kptr.stack + thread_size)
unfolding get_pt_regs
get_pt_regs_lem b t fits =
    let top : ℕ = t.kptr.stack + thread_size in
    (
      top - pt_regs_size,
      ground (
        arith,
        add64-fits b t.kptr.stack thread_size,
        sub64-fits b top 0,
        sub64-fits b top pt_regs_size,
      ),
      omega arith,
      omega arith,
    )
