-- ===== src/RateMonotonic/Buffers.antt =====
-- The buffer of `mp2_read` of mp2.c, and what `snprintf` does to it.
use mathlib.Core.Path.{subst}
use linux_kernel_development.Prelude.{
  ap, get_elem?, ℕ, zero, suc, ◌+◌, ◌<◌, ◌≤◌, ◌≡◌, refl, arith, length, length-append, length-take,
  min, List, [], ◌∷◌, ◌++◌, take, replicate,
}
use linux_kernel_development.Prelude.{Option, none, some}
use linux_kernel_development.RateMonotonic.Status.{Buffer, put, put_at, snprintf}

-- What fits in is written, and leaves the buffer as long as it was.
put-fits :
    (cs : List ℕ) (buf : Buffer)
    → length cs ≤ length buf
    → (buf' : Buffer) × (put cs buf ≡ some buf') × (length buf' ≡ length buf)
put-fits [] buf le = (buf, refl, refl)
put-fits (c ∷ cs) [] le = absurd (omega arith)
put-fits (c ∷ cs) (b ∷ buf) le =
    let (buf', e, same) = put-fits cs buf (omega arith) in
    (some c ∷ buf', rw e refl, omega (arith, same))

put-none : (cs : List ℕ) (buf : Buffer) → length buf < length cs → put cs buf ≡ none
put-none [] buf lt = absurd (omega arith)
put-none (c ∷ cs) [] lt = refl
put-none (c ∷ cs) (b ∷ buf) lt = rw (put-none cs buf (omega arith)) refl

put_at-none :
    (n : ℕ) (cs : List ℕ) (buf : Buffer)
    → 0 < length cs
    → length buf < n + length cs
    → put_at n cs buf ≡ none
put_at-none zero cs buf pos lt = put-none cs buf (omega arith)
put_at-none (suc n) cs [] pos lt = refl
put_at-none (suc n) cs (b ∷ buf) pos lt = rw (put_at-none n cs buf pos (omega arith)) refl

pub length-replicate : (n : ℕ) (b : Option ℕ) → length (replicate n b) ≡ n
length-replicate zero b = refl
length-replicate (suc n) b = omega (arith, length-replicate n b)

length-written :
    (room : ℕ) (text : List ℕ) → length (take room text ++ 0 ∷ []) ≡ min room (length text) + 1
length-written room text =
    omega (arith, length-append (take room text) (0 ∷ []), length-take room text)

-- `snprintf` is given the size of the whole buffer: behind the first line there is less room.
pub snprintf-fits :
    (count : ℕ) (text : List ℕ) (buf : Buffer)
    → length buf ≡ count
    → (buf' : Buffer) × (snprintf 0 count text buf ≡ some buf') × (length buf' ≡ count)
snprintf-fits zero text buf e = (buf, refl, e)
snprintf-fits (suc room) text buf e =
    let (buf', written, same) =
      put-fits (take room text ++ 0 ∷ []) buf (omega (arith, e, length-written room text)) in
    (buf', written, omega (arith, same, e))

pub snprintf-none :
    (offset count : ℕ) (text : List ℕ) (buf : Buffer)
    → length buf ≡ count
    → 0 < offset
    → offset < count
    → count ≤ offset + length text
    → snprintf offset count text buf ≡ none
snprintf-none offset zero text buf e pos lt over = absurd (omega arith)
snprintf-none offset (suc room) text buf e pos lt over =
    put_at-none offset _ buf (omega (arith, length-written room text))
      (omega (arith, e, length-written room text))

-- Where a text is put.
pub take-all : {A : Type 0} (n : ℕ) (xs : List A) → length xs ≤ n → take n xs ≡ xs
take-all zero [] le = refl
take-all zero (x ∷ xs) le = absurd (omega arith)
take-all (suc n) [] le = refl
take-all (suc n) (x ∷ xs) le = ap (λ ys. x ∷ ys) (take-all n xs (omega arith))

put-ends :
    (text : List ℕ) (buf : Buffer)
    → length text < length buf
    → (buf' : Buffer) × (put (text ++ 0 ∷ []) buf ≡ some buf')
      × (length buf' ≡ length buf)
      × (get_elem? buf' (length text) ≡ some (some 0))
put-ends text [] lt = absurd (omega arith)
put-ends [] (b ∷ buf) lt = (some 0 ∷ buf, refl, refl, refl)
put-ends (c ∷ cs) (b ∷ buf) lt =
    let (buf', e, same, last) = put-ends cs buf (omega arith) in
    (some c ∷ buf', rw e refl, omega (arith, same), last)

-- What stands before the text stays, and a NUL follows the text.
put_at-ends :
    (n : ℕ) (text : List ℕ) (buf : Buffer)
    → n + length text < length buf
    → (buf' : Buffer) × (put_at n (text ++ 0 ∷ []) buf ≡ some buf')
      × (length buf' ≡ length buf)
      × (get_elem? buf' (n + length text) ≡ some (some 0))
      × ((i : ℕ) → i < n → get_elem? buf' i ≡ get_elem? buf i)
put_at-ends zero text buf lt =
    let (buf', e, same, last) = put-ends text buf (omega (arith, lt)) in
    let at : length text ≡ 0 + length text = omega arith in
    let last' = subst (λ j. get_elem? buf' j ≡ some (some 0)) at last in
    (buf', e, same, last', λ i before. absurd (omega (arith, before)))
put_at-ends (suc n) text [] lt = absurd (omega arith)
put_at-ends (suc n) text (b ∷ buf) lt =
    let (buf', e, same, last, kept) = put_at-ends n text buf (omega arith) in
    let at : suc (n + length text) ≡ suc n + length text = omega arith in
    let last' = subst (λ j. get_elem? (b ∷ buf') j ≡ some (some 0)) at last in
    (b ∷ buf', rw e refl, omega (arith, same), last', before_too n b buf buf' kept)
  where
    before_too :
        (n : ℕ) (b : Option ℕ) (buf buf' : Buffer)
        → ((i : ℕ) → i < n → get_elem? buf' i ≡ get_elem? buf i)
        → (i : ℕ) → i < suc n
        → get_elem? (b ∷ buf') i ≡ get_elem? (b ∷ buf) i
    before_too n b buf buf' kept zero before = refl
    before_too n b buf buf' kept (suc i) before = kept i (omega arith)

pub snprintf-ends :
    (offset count : ℕ) (text : List ℕ) (buf : Buffer)
    → length buf ≡ count
    → offset + length text < count
    → (buf' : Buffer) × (snprintf offset count text buf ≡ some buf')
      × (length buf' ≡ count)
      × (get_elem? buf' (offset + length text) ≡ some (some 0))
      × ((i : ℕ) → i < offset → get_elem? buf' i ≡ get_elem? buf i)
snprintf-ends offset zero text buf e lt = absurd (omega arith)
snprintf-ends offset (suc room) text buf e lt =
    let (buf', written, same, last, kept) = put_at-ends offset text buf (omega (arith, e)) in
    let whole = take-all room text (omega arith) in
    (buf', rw whole written, omega (arith, same, e), last, kept)
