-- ===== src/Cleanup/Message.antt =====
-- The message that the panic handler of panic.rs hands to the kernel's landing pad.
use linux_kernel_development.Prelude.{ℕ, zero, suc, ◌-◌, ◌<◌, ◌≡◌, refl, ◌∙◌, arith, min}
use linux_kernel_development.Prelude.{
  Option, none, some, List, [], ◌∷◌, ◌++◌, length, take, drop, set, replicate,
}
use linux_kernel_development.Prelude.{Outcome, ok, panics, ◌>>=◌, length-set}
use linux_kernel_development.Prelude.Slices.{
  bytes, write, copy_prefix, copy_prefix-fits, length-copied, c_string, c_string-terminated,
}
use linux_kernel_development.Cleanup.Laws.{live, run, cleared, cleanup_all_lem}
use linux_kernel_development.Cleanup.{CleanupEntry, cleanup_all}
use native.Mathlib.Nat.{zero-min, min-zero, suc-min-suc}

-- `PanicInfo`, as far as the handler looks: `info.message()` with its `as_str()`, and the payload as
-- a `&str`. Texts are their bytes.
pub record PanicInfo : Type 0 where
  pub message : Option (Option (List ℕ))
  pub payload : Option (List ℕ)

-- "Rust program panicked\n\0"
abbrev pub default_message : List ℕ
default_message = bytes "Rust program panicked" ++ 10 ∷ 0 ∷ []

-- Copies as much of `s` as fits and ends it by a NUL.
pub copy_message : List ℕ → List ℕ → Outcome (List ℕ)
copy_message msg s = do
  let len = min (length msg - 1) (length s)
  msg' ← copy_prefix msg s len
  write msg' len 0

pub copy_default : List ℕ → Outcome (List ℕ)
copy_default msg = copy_prefix msg default_message (length default_message)

pub panic_message : PanicInfo → Outcome (List ℕ)
unfolding copy_message copy_default
panic_message info =
    let msg = replicate 128 0 in
    elim info.message [
      | some args ↦ elim args [ some s ↦ copy_message msg s | none ↦ copy_default msg ]
      | none ↦ elim info.payload [ some s ↦ copy_message msg s | none ↦ copy_default msg ]
    ]

-- The panic handler up to the call of the landing pad: the table, the world and the message.
pub panic_handler :
    {W : Type 0}
    → List (CleanupEntry W)
    → W
    → PanicInfo
    → Outcome (List (CleanupEntry W) × W × List ℕ)
panic_handler entries w info = do
  (entries', w') ← cleanup_all entries w
  msg ← panic_message info
  ok (entries', w', msg)

-- The text that the handler chooses to show.
abbrev pub shown : PanicInfo → Option (List ℕ)
shown info = elim info.message [ some args ↦ args | none ↦ info.payload ]

-- A message buffer of the handler's size that shows `text`.
pub record Shows (msg text : List ℕ) : Type 0 where
  pub size : length msg ≡ 128
  pub reads : c_string msg ≡ text

take-min-c_string :
    (n : ℕ) (s : List ℕ) → take (min n (length s)) (c_string s) ≡ take n (c_string s)
take-min-c_string zero s = rw zero-min
take-min-c_string (suc n) [] = rw min-zero
take-min-c_string (suc n) (x ∷ s) = rw suc-min-suc (ground (arith, take-min-c_string n s))

copy_message_lem :
    (msg s : List ℕ)
    → 0 < length msg
    → (out : List ℕ) × (copy_message msg s ≡ ok out)
      × (length out ≡ length msg)
      × (c_string out ≡ take (length msg - 1) (c_string s))
unfolding copy_message
copy_message_lem msg s pos =
    let len : ℕ = min (length msg - 1) (length s) in
    let copied : List ℕ = take len s ++ drop len msg in
    let same_length = length-copied msg s len (omega arith) (omega arith) in
    (
      set copied len 0,
      ground (arith, copy_prefix-fits msg s len, same_length),
      length-set copied len 0 ∙ same_length,
      c_string-terminated len s msg (omega arith) (omega arith)
          ∙ take-min-c_string (length msg - 1) s,
    )

-- What C reads from the buffer: the text to its first NUL, cut to 127 bytes, or the default.
abbrev pub displayed : Option (List ℕ) → List ℕ
displayed (some s) = take 127 (c_string s)
displayed none = bytes "Rust program panicked" ++ 10 ∷ []

copied_text :
    (s : List ℕ)
    → (msg : List ℕ) × (copy_message (replicate 128 0) s ≡ ok msg)
      × Shows msg (take 127 (c_string s))
copied_text s =
    let (msg, returns, size, reads) = copy_message_lem (replicate 128 0) s (omega arith) in
    (msg, returns, record { size = size; reads = reads })

default_text :
    (msg : List ℕ) × (copy_default (replicate 128 0) ≡ ok msg) × Shows msg (displayed none)
unfolding copy_default
default_text = (default_message ++ replicate 105 0, refl, record { size = refl; reads = refl })

-- The handler builds a message under every form of panic information: 128 bytes in which C reads
-- the text that came with the panic, up to its first NUL and cut to 127 bytes, or the default text
-- if none came.
panic_message_lem :
    (info : PanicInfo)
    → (msg : List ℕ) × (panic_message info ≡ ok msg) × Shows msg (displayed (shown info))
panic_message_lem info = by_parts info.message info.payload
  where
    by_parts :
        (m : Option (Option (List ℕ))) (p : Option (List ℕ))
        → let i : PanicInfo = record { message = m; payload = p } in
          (msg : List ℕ) × (panic_message i ≡ ok msg) × Shows msg (displayed (shown i))
    by_parts (some (some s)) p = unfold panic_message in copied_text s
    by_parts (some none) p = unfold panic_message in default_text
    by_parts none (some s) = unfold panic_message in copied_text s
    by_parts none none = unfold panic_message in default_text

-- The handler panics only if a registered clean-up function does; otherwise it empties the table,
-- runs what was registered and passes on the message.
pub panic_handler_lem :
    {W : Type 0} (es : List (CleanupEntry W)) (w : W) (info : PanicInfo)
    → (msg : List ℕ) × Shows msg (displayed (shown info))
      × (panic_handler es w info ≡ (run (live es) w >>= λ w'. ok (cleared (length es), w', msg)))
unfolding panic_handler
panic_handler_lem {W} es w info =
    let (msg, returns, shows) = panic_message_lem info in
    (msg, shows, rw (cleanup_all_lem es w, returns) (deliver msg (run (live es) w)))
  where
    emptied : W → Outcome (List (CleanupEntry W) × W)
    emptied w' = ok (cleared (length es), w')

    hand_over : List ℕ → List (CleanupEntry W) × W → Outcome (List (CleanupEntry W) × W × List ℕ)
    hand_over msg (es', w') = ok (es', w', msg)

    deliver :
        (msg : List ℕ) (o : Outcome W)
        → ((o >>= emptied) >>= hand_over msg)
          ≡ (o >>= λ w'. hand_over msg (cleared (length es), w'))
    deliver msg (ok w') = refl
    deliver msg (panics p) = refl
