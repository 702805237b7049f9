-- ===== src/RateMonotonic/Command.antt =====
-- The proc file of mp2.c: `mp2_write`, which reads a command and carries it out; and the messages of
-- the application that uses it (userapp.c). A text is the list of its bytes.
use linux_kernel_development.Prelude.{ℕ, suc, List, [], ◌∷◌, ◌++◌}
use linux_kernel_development.Prelude.{Option, none, some, ◌==◌, if◌then◌else◌}
use linux_kernel_development.Prelude.Words.{neg64, sign_extend32}
use linux_kernel_development.Sysctl.Decimal.{decimal}
use linux_kernel_development.RateMonotonic.{
  Checked, ok, faults, out_of_bounds, uninitialized_read, invalid_free, ◌>>=◌, Scheduler, Kernel,
  registration, yield, deregistration,
}

-- `kstrtoint` and `kstrtoul` with base 10, `none` being an error; and the error numbers.
pub record Parsers : Type 0 where
  pub kstrtoint : List ℕ → Option ℕ
  pub kstrtoul : List ℕ → Option ℕ
  pub einval : ℕ
  pub efault : ℕ

-- A newline at the end of the buffer becomes its NUL.
unfoldable pub chomp : List ℕ → List ℕ
chomp [] = []
chomp (c ∷ []) = (if c == 10 then 0 else c) ∷ []
chomp (c ∷ d ∷ cs) = c ∷ chomp (d ∷ cs)

-- The string in a buffer; `none` if it goes on behind the buffer.
unfoldable pub string_in : List ℕ → Option (List ℕ)
string_in [] = none
string_in (c ∷ cs) =
    if c == 0 then some [] else elim (string_in cs) [ none ↦ none | some s ↦ some (c ∷ s) ]

unfoldable pub to_first : ℕ → List (List ℕ) → List (List ℕ)
to_first c [] = (c ∷ []) ∷ []
to_first c (t ∷ ts) = (c ∷ t) ∷ ts

-- What the calls of `strsep(&ker_buf, ",")` return.
unfoldable pub strsep : List ℕ → List (List ℕ)
unfolding to_first
strsep [] = [] ∷ []
strsep (c ∷ cs) = let rest = strsep cs in if c == 44 then [] ∷ rest else to_first c rest

-- The variables that the loop sets; `none` is an uninitialised one.
pub record Arguments : Type 0 where
  pub op : List ℕ
  pub pid : Option ℕ
  pub period : Option ℕ
  pub processing_time : Option ℕ

unfoldable pub unset : Arguments
unset = record { op = []; pid = none; period = none; processing_time = none }

-- How the loop ends: with every token read, or at an error, with the tokens that are left.
pub data Parsed : Type 0 where
  parsed : Arguments → Parsed
  refused : List (List ℕ) → Parsed

module _ (p : Parsers) where
  -- The body of the loop at `argc`; `none` is the jump to the end with -EINVAL.
  unfoldable pub argument : ℕ → List ℕ → Arguments → Option Arguments
  argument argc token a =
      if argc == 0
      then some (record a { op = token })
      else if argc == 1
      then (elim (p.kstrtoint token) [ none ↦ none | some v ↦ some (record a { pid = some v }) ])
      else if argc == 2
      then (elim (p.kstrtoul token) [ none ↦ none | some v ↦ some (record a { period = some v }) ])
      else if argc == 3
      then (elim (p.kstrtoul token) [
        | none ↦ none
        | some v ↦ some (record a { processing_time = some v })
      ])
      else none

  unfoldable pub arguments : ℕ → List (List ℕ) → Arguments → Parsed
  unfolding argument
  arguments argc [] a = parsed a
  arguments argc (token ∷ tokens) a = elim (argument argc token a) [
    | none ↦ refused tokens
    | some a' ↦ arguments (suc argc) tokens a'
  ]

-- Using a variable.
abbrev pub value : Option ℕ → Checked ℕ
value none = faults uninitialized_read
value (some v) = ok v

-- `op[0]`.
abbrev pub first_byte : List ℕ → ℕ
first_byte [] = 0
first_byte (c ∷ cs) = c

-- What the kernel supplies to one call: an object of the cache, and the clock at each read.
pub record Supplies : Type 0 where
  pub alloc : Option ℕ
  pub jiffies : ℕ
  pub jiffies' : ℕ

-- The status of an operation as the result of the write, which has 64 bits.
abbrev pub extended : ℕ × Scheduler → Checked (ℕ × Scheduler)
extended r = ok (sign_extend32 r.0, r.1)

module _ (k : Kernel) (p : Parsers) (sup : Supplies) where
  -- The `switch` on the operation.
  unfoldable pub perform : Arguments → Scheduler → Checked (ℕ × Scheduler)
  perform a s =
      if first_byte a.op == b'R'
      then (do
        pid ← value a.pid
        period ← value a.period
        processing_time ← value a.processing_time
        r ← registration k sup.alloc sup.jiffies pid period processing_time s
        extended r)
      else if first_byte a.op == b'Y'
      then (do pid ← value a.pid; extended (yield sup.jiffies sup.jiffies' pid s))
      else if first_byte a.op == b'D'
      then (do pid ← value a.pid; extended (deregistration pid s))
      else ok (neg64 p.einval, s)

  -- The jump to `cleanup_buf`: `strsep` has moved `ker_buf`, to NULL behind the last token, and into
  -- the middle of the buffer before, where `kfree` is not defined.
  unfoldable pub give_up : List (List ℕ) → Scheduler → Checked (ℕ × Scheduler)
  give_up [] s = ok (neg64 p.einval, s)
  give_up (token ∷ tokens) s = faults invalid_free

  -- `mp2_write` at the offset `offp`: the result, and the state. `copied` is what `copy_from_user`
  -- has copied, `none` if it fails. The allocation of the buffer does not fail.
  unfoldable pub write : ℕ → ℕ → Option (List ℕ) → Scheduler → Checked (ℕ × Scheduler)
  unfolding chomp string_in strsep arguments unset perform give_up
  write offp count none s = if offp == 0 then ok (neg64 p.efault, s) else ok (count, s)
  write offp count (some buf) s =
      if offp == 0
      then (elim (string_in (chomp buf)) [
        | none ↦ faults out_of_bounds
        | some text ↦ elim (arguments p 0 (strsep text) unset) [
          | refused tokens ↦ give_up tokens s
          | parsed a ↦ perform a s
        ]
      ])
      else ok (count, s)

-- `*offp` after the call.
unfoldable offset_after : ℕ → ℕ → Option (List ℕ) → ℕ
offset_after offp count none = offp
offset_after offp count (some buf) = if offp == 0 then count else offp

-- `register_process`, `yield_process` and `deregister_process` of userapp.c, for a process id that is
-- not negative.
unfoldable pub register_message : ℕ → ℕ → ℕ → List ℕ
register_message pid period processing_time =
    b'R' ∷ 44 ∷ decimal pid ++ (44 ∷ decimal period ++ (44 ∷ decimal processing_time ++ 10 ∷ []))

unfoldable pub yield_message : ℕ → List ℕ
yield_message pid = b'Y' ∷ 44 ∷ decimal pid ++ 10 ∷ []

unfoldable pub deregister_message : ℕ → List ℕ
deregister_message pid = b'D' ∷ 44 ∷ decimal pid ++ 10 ∷ []
