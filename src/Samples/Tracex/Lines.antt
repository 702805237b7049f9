-- ===== src/Samples/Tracex/Lines.antt =====
-- Which system calls samples/tracex5/src/main.rs prints.
use linux_kernel_development.Prelude.{ℕ, ◌≡◌, ◌≢◌, ◌≤◌, ◌<◌, ◌⊎◌, ◌∙◌, inl, inr, refl, arith, ap}
use linux_kernel_development.Prelude.{
  List, ◌∷◌, length, Option, none, some, Option-cases, true, false, ◌&&◌, Bool-cases, ◌==◌, leb,
  ltb, if◌then◌else◌,
}
use linux_kernel_development.Prelude.Words.{as_u32, is_neg64}
use linux_kernel_development.Registers.{rsi, rdi}
use linux_kernel_development.Utils.{Result, to_result64}
use linux_kernel_development.Programs.{Regs}
use linux_kernel_development.BaseHelper.{Calls, bpf_trace_printk, bpf_printk, bpf_probe_read_kernel}
use linux_kernel_development.BaseHelper.Traced.{Line, line}
use linux_kernel_development.Samples.Tracex.{
  SeccompData, arg, Numbers, empty_data, write_line, read_line, mmap_line, ids_line, func_sys_write,
  func_sys_read, func_sys_mmap, iu_prog1_fn,
}

-- The kernel's calls: `log` holds the requests to print, the latest first, and `readable` is the
-- structure at an address, if the kernel can read there. A failed read returns a negative number.
pub record Probing {S : Type 0} (c : Calls S)
    (probe : ℕ → ℕ → SeccompData → S → ℕ × SeccompData × S) : Type 0 where
  pub log : S → List Line
  pub readable : S → ℕ → Option SeccompData
  pub prints :
      (fmt : List ℕ) (size arg1 arg2 arg3 : ℕ) (s : S)
      → log (c.trace_printk fmt size arg1 arg2 arg3 s).1 ≡ line fmt arg1 arg2 arg3 ∷ log s
  pub probe_silent : (size p : ℕ) (d : SeccompData) (s : S) → log (probe size p d s).2 ≡ log s
  pub probe_reads :
      (size p : ℕ) (d : SeccompData) (s : S) (sd : SeccompData)
      → readable s p ≡ some sd
      → ((probe size p d s).0 ≡ 0) × ((probe size p d s).1 ≡ sd)
  pub probe_fails :
      (size p : ℕ) (d : SeccompData) (s : S)
      → readable s p ≡ none
      → is_neg64 (probe size p d s).0 ≡ true

-- The line that a system call is worth, by its number, the registers and the data behind `rsi`.
pub data Worth (n : Numbers) (regs : Regs) : Option SeccompData → Line → Type 0 where
  reads :
      (sd : SeccompData)
      → as_u32 (regs rdi) ≡ n.nr_read
      → 128 < arg sd 2
      → arg sd 2 ≤ 1024
      → Worth n regs (some sd) (line read_line (arg sd 0) (arg sd 1) (arg sd 2))
  writes :
      (sd : SeccompData)
      → as_u32 (regs rdi) ≢ n.nr_read
      → as_u32 (regs rdi) ≡ n.nr_write
      → arg sd 2 ≡ 512
      → Worth n regs (some sd) (line write_line (arg sd 0) (arg sd 1) (arg sd 2))
  maps :
      (d : Option SeccompData)
      → as_u32 (regs rdi) ≢ n.nr_read
      → as_u32 (regs rdi) ≢ n.nr_write
      → as_u32 (regs rdi) ≡ n.nr_mmap
      → Worth n regs d (line mmap_line 0 0 0)
  identifies :
      (d : Option SeccompData)
      → as_u32 (regs rdi) ≢ n.nr_read
      → as_u32 (regs rdi) ≢ n.nr_write
      → as_u32 (regs rdi) ≢ n.nr_mmap
      → n.nr_getuid ≤ as_u32 (regs rdi)
      → as_u32 (regs rdi) ≤ n.nr_getsid
      → Worth n regs d (line ids_line (regs rdi) 0 0)

-- When a call is not worth a line: nothing can be read, or the data or the number are others.
module _ (n : Numbers) (regs : Regs) where
  unread-not-Worth :
      {l : Line}
      → (as_u32 (regs rdi) ≡ n.nr_read) ⊎ (as_u32 (regs rdi) ≡ n.nr_write)
      → ¬ Worth n regs none l
  unread-not-Worth (inl e) (maps d r w m) = r e
  unread-not-Worth (inr e) (maps d r w m) = w e
  unread-not-Worth (inl e) (identifies d r w m lo hi) = r e
  unread-not-Worth (inr e) (identifies d r w m lo hi) = w e

  read-not-Worth :
      {sd : SeccompData} {l : Line}
      → as_u32 (regs rdi) ≡ n.nr_read
      → ltb 128 (arg sd 2) && leb (arg sd 2) 1024 ≡ false
      → ¬ Worth n regs (some sd) l
  read-not-Worth e small (reads sd is_read lo hi) = ground (arith, small, lo, hi)
  read-not-Worth e small (writes sd r w size) = r e
  read-not-Worth e small (maps d r w m) = r e
  read-not-Worth e small (identifies d r w m lo hi) = r e

  write-not-Worth :
      {sd : SeccompData} {l : Line}
      → as_u32 (regs rdi) ≢ n.nr_read
      → as_u32 (regs rdi) ≡ n.nr_write
      → (arg sd 2 == 512) ≡ false
      → ¬ Worth n regs (some sd) l
  write-not-Worth ne e other (reads sd is_read lo hi) = ne is_read
  write-not-Worth ne e other (writes sd r w size) = ground (arith, other, size)
  write-not-Worth ne e other (maps d r w m) = w e
  write-not-Worth ne e other (identifies d r w m lo hi) = w e

  other-not-Worth :
      {d : Option SeccompData} {l : Line}
      → as_u32 (regs rdi) ≢ n.nr_read
      → as_u32 (regs rdi) ≢ n.nr_write
      → as_u32 (regs rdi) ≢ n.nr_mmap
      → leb n.nr_getuid (as_u32 (regs rdi)) && leb (as_u32 (regs rdi)) n.nr_getsid ≡ false
      → ¬ Worth n regs d l
  other-not-Worth r w m out (reads sd is_read lo hi) = r is_read
  other-not-Worth r w m out (writes sd r' is_write size) = w is_write
  other-not-Worth r w m out (maps d r' w' is_mmap) = m is_mmap
  other-not-Worth r w m out (identifies d r' w' m' lo hi) = ground (arith, out, lo, hi)

module _ {S : Type 0} (c : Calls S) (probe : ℕ → ℕ → SeccompData → S → ℕ × SeccompData × S)
    (size : ℕ) (n : Numbers) (p : Probing c probe) (regs : Regs) (s : S) where
  -- A run that prints the line that the call is worth, and none if it is worth none.
  abbrev pub Shown : Result × S → Type 0
  Shown run =
      ((p.log run.1 ≡ p.log s) × ((l : Line) → ¬ Worth n regs (p.readable s (regs rsi)) l))
      ⊎ ((l : Line) × Worth n regs (p.readable s (regs rsi)) l × (p.log run.1 ≡ l ∷ p.log s))

  probed :
      (p.log (bpf_probe_read_kernel probe size empty_data (regs rsi) s).2 ≡ p.log s)
      × (((p.readable s (regs rsi) ≡ none)
            × (e : ℕ) × ((bpf_probe_read_kernel probe size empty_data (regs rsi) s).0
                ≡ Result.err e))
          ⊎ ((sd : SeccompData) × (p.readable s (regs rsi) ≡ some sd)
              × ((bpf_probe_read_kernel probe size empty_data (regs rsi) s).0 ≡ Result.ok 0)
              × ((bpf_probe_read_kernel probe size empty_data (regs rsi) s).1 ≡ sd)))
  unfolding bpf_probe_read_kernel to_result64
  probed = (
    p.probe_silent (as_u32 size) (regs rsi) empty_data s,
    elim (Option-cases (p.readable s (regs rsi))) [
      | inl unread ↦
          (let failed = p.probe_fails (as_u32 size) (regs rsi) empty_data s unread in
            inl (unread, as_u32 (probe (as_u32 size) (regs rsi) empty_data s).0, rw failed refl))
      | inr (sd, read) ↦
          (let (status, filled) = p.probe_reads (as_u32 size) (regs rsi) empty_data s sd read in
            inr (sd, read, rw status refl, filled))
    ],
  )

  printed :
      (fmt : List ℕ) (a1 a2 a3 : ℕ) (s1 : S)
      → p.log s1 ≡ p.log s
      → p.log (bpf_printk c fmt a1 a2 a3 s1) ≡ line fmt a1 a2 a3 ∷ p.log s
  unfolding bpf_printk bpf_trace_printk
  printed fmt a1 a2 a3 s1 silent =
      p.prints fmt (as_u32 (length fmt)) a1 a2 a3 s1 ∙ ap (λ rest. line fmt a1 a2 a3 ∷ rest) silent

  func_sys_read-Shown : as_u32 (regs rdi) ≡ n.nr_read → Shown (func_sys_read c probe size regs s)
  unfolding func_sys_read
  func_sys_read-Shown e =
      let (silent, cases) = probed in
      elim cases [
        | inl (unread, code, failed) ↦
            rw (func_sys_read, failed, unread) (inl (silent, λ l. unread-not-Worth n regs (inl e)))
        | inr (sd, read, done, filled) ↦
            elim (Bool-cases (ltb 128 (arg sd 2) && leb (arg sd 2) 1024)) [
              | inl wanted ↦
                  rw (func_sys_read, done, filled, wanted, read)
                    (inr (
                      line read_line (arg sd 0) (arg sd 1) (arg sd 2),
                      reads sd e (ground (arith, wanted)) (ground (arith, wanted)),
                      printed read_line (arg sd 0) (arg sd 1) (arg sd 2) _ silent,
                    ))
              | inr small ↦
                  rw (func_sys_read, done, filled, small, read)
                    (inl (silent, λ l. read-not-Worth n regs e small))
            ]
      ]

  func_sys_write-Shown :
      as_u32 (regs rdi) ≢ n.nr_read
      → as_u32 (regs rdi) ≡ n.nr_write
      → Shown (func_sys_write c probe size regs s)
  unfolding func_sys_write
  func_sys_write-Shown ne e =
      let (silent, cases) = probed in
      elim cases [
        | inl (unread, code, failed) ↦
            rw (func_sys_write, failed, unread) (inl (silent, λ l. unread-not-Worth n regs (inr e)))
        | inr (sd, read, done, filled) ↦ elim (Bool-cases (arg sd 2 == 512)) [
          | inl wanted ↦
              rw (func_sys_write, done, filled, wanted, read)
                (inr (
                  line write_line (arg sd 0) (arg sd 1) (arg sd 2),
                  writes sd ne e (ground (arith, wanted)),
                  printed write_line (arg sd 0) (arg sd 1) (arg sd 2) _ silent,
                ))
          | inr other ↦
              rw (func_sys_write, done, filled, other, read)
                (inl (silent, λ l. write-not-Worth n regs ne e other))
        ]
      ]

  -- For a kernel that reads memory and prints as documented, the probe prints at most one line, and
  -- exactly the line that the system call is worth: a read of more than 128 and at most 1024 bytes,
  -- a write of 512 bytes, any mmap, and the calls from getuid to getsid.
  pub iu_prog1_fn-Shown : Shown (iu_prog1_fn c probe size n regs s)
  unfolding iu_prog1_fn func_sys_mmap
  iu_prog1_fn-Shown = elim (Bool-cases (as_u32 (regs rdi) == n.nr_read)) [
    | inl is_read ↦ rw is_read (func_sys_read-Shown (ground (arith, is_read)))
    | inr r ↦ elim (Bool-cases (as_u32 (regs rdi) == n.nr_write)) [
      | inl is_write ↦
          rw (r, is_write) (func_sys_write-Shown (ground (arith, r)) (ground (arith, is_write)))
      | inr w ↦ elim (Bool-cases (as_u32 (regs rdi) == n.nr_mmap)) [
        | inl is_mmap ↦
            rw (r, w, is_mmap)
              (inr (
                line mmap_line 0 0 0,
                maps (p.readable s (regs rsi)) (ground (arith, r)) (ground (arith, w))
                    (ground (arith, is_mmap)),
                printed mmap_line 0 0 0 s refl,
              ))
        | inr m ↦ rw (r, w, m) (others (ground (arith, r)) (ground (arith, w)) (ground (arith, m)))
      ]
    ]
  ]
    where
      others :
          as_u32 (regs rdi) ≢ n.nr_read
          → as_u32 (regs rdi) ≢ n.nr_write
          → as_u32 (regs rdi) ≢ n.nr_mmap
          → Shown (
              if leb n.nr_getuid (as_u32 (regs rdi)) && leb (as_u32 (regs rdi)) n.nr_getsid
              then (Result.ok 0, bpf_printk c ids_line (regs rdi) 0 0 s)
              else (Result.ok 0, s))
      others r w m =
          elim (Bool-cases
            (leb n.nr_getuid (as_u32 (regs rdi)) && leb (as_u32 (regs rdi)) n.nr_getsid)) [
              | inl inside ↦ rw inside (
                  inr (
                    line ids_line (regs rdi) 0 0,
                    identifies (p.readable s (regs rsi)) r w m (ground (arith, inside))
                        (ground (arith, inside)),
                    printed ids_line (regs rdi) 0 0 s refl,
                  ))
              | inr outside ↦ rw outside (inl (refl, λ l. other-not-Worth n regs r w m outside))
            ]
