-- ===== src/RateMonotonic/Messages.antt =====
-- The messages of userapp.c, as `mp2_write` of mp2.c reads them.
use linux_kernel_development.Prelude.{
  ℕ, zero, suc, ◌+◌, ◌/◌, ◌%◌, ◌^◌, ◌<◌, ◌≡◌, refl, ap, ◌∙◌, inl, inr, arith, Bool-cases, List, [],
  ◌∷◌, ◌++◌,
}
use mathlib.Core.List.{append_assoc}
use linux_kernel_development.Prelude.{none, some, ltb}
use linux_kernel_development.Sysctl.Decimal.{decimal, digits}
use linux_kernel_development.RateMonotonic.{
  ◌>>=◌, Scheduler, Kernel, registration, yield, deregistration,
}
use linux_kernel_development.RateMonotonic.Command.{
  Parsers, chomp, string_in, to_first, strsep, Arguments, unset, argument, parsed, arguments,
  Supplies, extended, perform, write, register_message, yield_message, deregister_message,
}

-- Bytes behind the comma: no NUL, no newline and no comma.
abbrev Plain : List ℕ → Type 0
Plain [] = Unit
Plain (c ∷ cs) = (44 < c) × Plain cs

-- Bytes that do not end a text.
abbrev Nonzero : List ℕ → Type 0
Nonzero [] = Unit
Nonzero (c ∷ cs) = (0 < c) × Nonzero cs

Plain-append : (xs ys : List ℕ) → Plain xs → Plain ys → Plain (xs ++ ys)
Plain-append [] ys h k = k
Plain-append (x ∷ xs) ys h k = (h.0, Plain-append xs ys h.1 k)

Nonzero-append : (xs ys : List ℕ) → Plain xs → Nonzero ys → Nonzero (xs ++ ys)
Nonzero-append [] ys h k = k
Nonzero-append (x ∷ xs) ys h k = (omega arith, Nonzero-append xs ys h.1 k)

digits-Plain : (fuel n : ℕ) → Plain (digits fuel n)
digits-Plain zero n = tt
digits-Plain (suc fuel) n = elim (Bool-cases (ltb n 10)) [
  | inl last ↦ rw last (omega arith, tt)
  | inr more ↦ rw more (
      Plain-append (digits fuel (n / 10)) ((48 + n % 10) ∷ []) (digits-Plain fuel (n / 10))
        (omega arith, tt))
]

decimal-Plain : (n : ℕ) → Plain (decimal n)
decimal-Plain n = digits-Plain (suc n) n

-- The newline at the end becomes the NUL that ends the string.
string_in-chomp : (xs : List ℕ) → Nonzero xs → string_in (chomp (xs ++ 10 ∷ [])) ≡ some xs
unfolding string_in chomp
string_in-chomp [] h = refl
string_in-chomp (x ∷ []) h = ground arith
string_in-chomp (x ∷ y ∷ xs) h = ground (arith, string_in-chomp (y ∷ xs) h.1)

strsep-last : (xs : List ℕ) → Plain xs → strsep xs ≡ xs ∷ []
unfolding strsep to_first
strsep-last [] h = refl
strsep-last (x ∷ xs) h = ground (arith, strsep-last xs h.1)

strsep-append : (xs ys : List ℕ) → Plain xs → strsep (xs ++ 44 ∷ ys) ≡ xs ∷ strsep ys
unfolding strsep to_first
strsep-append [] ys h = refl
strsep-append (x ∷ xs) ys h = ground (arith, strsep-append xs ys h.1)

-- The parsers of the kernel read decimal numbers: an `int` that is not negative, an `unsigned long`.
pub record ReadsNumbers (p : Parsers) : Type 0 where
  pub reads_int : (n : ℕ) → n < 2 ^ 31 → p.kstrtoint (decimal n) ≡ some n
  pub reads_ulong : (n : ℕ) → n < 2 ^ 64 → p.kstrtoul (decimal n) ≡ some n

module _ (k : Kernel) (p : Parsers) (sup : Supplies) where
  -- A text that ends in a newline and has no other NUL is taken apart at its commas.
  write-message :
      (text : List ℕ) (count : ℕ) (s : Scheduler) (a : Arguments)
      → Nonzero text
      → arguments p 0 (strsep text) unset ≡ parsed a
      → write k p sup 0 count (some (text ++ 10 ∷ [])) s ≡ perform k p sup a s
  unfolding write
  write-message text count s a nonzero read = rw (string_in-chomp text nonzero) (rw read)

-- The parts of the messages before the newline.
abbrev one_number : ℕ → ℕ → List ℕ
one_number op pid = op ∷ 44 ∷ decimal pid

abbrev three_numbers : ℕ → ℕ → ℕ → List ℕ
three_numbers pid period c = b'R' ∷ 44 ∷ decimal pid ++ (44 ∷ decimal period ++ (44 ∷ decimal c))

strsep-one : (op pid : ℕ) → 44 < op → strsep (one_number op pid) ≡ (op ∷ []) ∷ decimal pid ∷ []
strsep-one op pid plain =
    strsep-append (op ∷ []) (decimal pid) (plain, tt)
    ∙ ap (λ ts. (op ∷ []) ∷ ts) (strsep-last (decimal pid) (decimal-Plain pid))

strsep-three :
    (pid period c : ℕ)
    → strsep (three_numbers pid period c)
      ≡ (b'R' ∷ []) ∷ decimal pid ∷ decimal period ∷ decimal c ∷ []
strsep-three pid period c =
    strsep-append (b'R' ∷ []) (decimal pid ++ (44 ∷ decimal period ++ (44 ∷ decimal c)))
      (omega arith, tt)
    ∙ ap (λ ts. (b'R' ∷ []) ∷ ts)
        (strsep-append (decimal pid) (decimal period ++ (44 ∷ decimal c)) (decimal-Plain pid)
          ∙ ap (λ ts. decimal pid ∷ ts)
              (strsep-append (decimal period) (decimal c) (decimal-Plain period)
                ∙ ap (λ ts. decimal period ∷ ts) (strsep-last (decimal c) (decimal-Plain c))))

register-append :
    (xs ys zs : List ℕ)
    → b'R' ∷ 44 ∷ xs ++ (44 ∷ ys ++ (44 ∷ zs ++ 10 ∷ []))
      ≡ (b'R' ∷ 44 ∷ xs ++ (44 ∷ ys ++ (44 ∷ zs))) ++ 10 ∷ []
register-append xs ys zs = simp append_assoc

Plain-Nonzero : (xs : List ℕ) → Plain xs → Nonzero xs
Plain-Nonzero [] h = tt
Plain-Nonzero (x ∷ xs) h = (omega arith, Plain-Nonzero xs h.1)

module _ (p : Parsers) where
  arguments-of_four :
      (op t₁ t₂ t₃ : List ℕ) (v₁ v₂ v₃ : ℕ)
      → p.kstrtoint t₁ ≡ some v₁
      → p.kstrtoul t₂ ≡ some v₂
      → p.kstrtoul t₃ ≡ some v₃
      → arguments p 0 (op ∷ t₁ ∷ t₂ ∷ t₃ ∷ []) unset
        ≡ parsed (record { op = op; pid = some v₁; period = some v₂; processing_time = some v₃ })
  unfolding arguments argument unset
  arguments-of_four op t₁ t₂ t₃ v₁ v₂ v₃ e₁ e₂ e₃ = rw e₁ (rw e₂ (rw e₃))

  arguments-of_two :
      (op t₁ : List ℕ) (v₁ : ℕ)
      → p.kstrtoint t₁ ≡ some v₁
      → arguments p 0 (op ∷ t₁ ∷ []) unset
        ≡ parsed (record { op = op; pid = some v₁; period = none; processing_time = none })
  unfolding arguments argument unset
  arguments-of_two op t₁ v₁ e₁ = rw e₁

module _ (k : Kernel) (p : Parsers) (reads : ReadsNumbers p) (sup : Supplies) where
  open reads use {reads_int, reads_ulong}

  arguments-three :
      (pid period c : ℕ)
      → pid < 2 ^ 31
      → period < 2 ^ 64
      → c < 2 ^ 64
      → arguments p 0 (strsep (three_numbers pid period c)) unset
        ≡ parsed (record {
          op = b'R' ∷ [];
          pid = some pid;
          period = some period;
          processing_time = some c;
        })
  arguments-three pid period c small small' small'' =
      ap (λ ts. arguments p 0 ts unset) (strsep-three pid period c)
      ∙ arguments-of_four p (b'R' ∷ []) (decimal pid) (decimal period) (decimal c) pid period c
          (reads_int pid small) (reads_ulong period small') (reads_ulong c small'')

  arguments-one :
      (op pid : ℕ)
      → 44 < op
      → pid < 2 ^ 31
      → arguments p 0 (strsep (one_number op pid)) unset
        ≡ parsed (record { op = op ∷ []; pid = some pid; period = none; processing_time = none })
  arguments-one op pid plain small =
      ap (λ ts. arguments p 0 ts unset) (strsep-one op pid plain)
      ∙ arguments-of_two p (op ∷ []) (decimal pid) pid (reads_int pid small)

  three-Nonzero : (pid period c : ℕ) → Nonzero (three_numbers pid period c)
  three-Nonzero pid period c =
      let behind =
        Nonzero-append (decimal period) (44 ∷ decimal c) (decimal-Plain period)
          (omega arith, Plain-Nonzero (decimal c) (decimal-Plain c)) in
      let all =
        Nonzero-append (decimal pid) (44 ∷ decimal period ++ (44 ∷ decimal c)) (decimal-Plain pid)
          (omega arith, behind) in
      (omega arith, (omega arith, all))

  -- The message with which an application registers is understood: writing it to the file registers
  -- the process with the parameters that were printed, and returns the status of the registration.
  -- The numbers fit their C types, and the process id is not negative.
  pub write-register_message :
      (pid period processing_time count : ℕ) (s : Scheduler)
      → pid < 2 ^ 31
      → period < 2 ^ 64
      → processing_time < 2 ^ 64
      → write k p sup 0 count (some (register_message pid period processing_time)) s
        ≡ (registration k sup.alloc sup.jiffies pid period processing_time s >>= extended)
  unfolding register_message perform
  write-register_message pid period c count s small small' small'' =
      ap (λ text. write k p sup 0 count (some text) s)
        (register-append (decimal pid) (decimal period) (decimal c))
      ∙ write-message k p sup (three_numbers pid period c) count s _ (three-Nonzero pid period c)
          (arguments-three pid period c small small' small'')

  -- So are the messages with which it yields, and with which it deregisters.
  pub write-yield_message :
      (pid count : ℕ) (s : Scheduler)
      → pid < 2 ^ 31
      → (write k p sup 0 count (some (yield_message pid)) s
          ≡ extended (yield sup.jiffies sup.jiffies' pid s))
        × (write k p sup 0 count (some (deregister_message pid)) s
            ≡ extended (deregistration pid s))
  unfolding yield_message deregister_message perform
  write-yield_message pid count s small = (
    write-message k p sup (one_number b'Y' pid) count s _
        (omega arith, (omega arith, Plain-Nonzero (decimal pid) (decimal-Plain pid)))
        (arguments-one b'Y' pid (omega arith) small),
    write-message k p sup (one_number b'D' pid) count s _
        (omega arith, (omega arith, Plain-Nonzero (decimal pid) (decimal-Plain pid)))
        (arguments-one b'D' pid (omega arith) small),
  )
