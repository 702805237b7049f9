-- ===== src/Tests/Panics.antt =====
-- The clean-up table and the panic handler of panic.rs at a small table. The world is the list of
-- the arguments that clean-up functions were called with.
use linux_kernel_development.Prelude.{ℕ, ◌≡◌, refl, List, [], ◌∷◌, ◌++◌, length, none, some}
use linux_kernel_development.Prelude.{ok, ◌>>=◌}
use linux_kernel_development.Prelude.{panics, object_count_exceeded, ◌↔◌}
use linux_kernel_development.Cleanup.{
  CleanupFn, CleanupEntry, new_entry, find_from, find_next_empty_entry, cleanup_all, index_mut,
}
use linux_kernel_development.Cleanup.Laws.{live, run, cleared, cleanup_all_lem}
use linux_kernel_development.Cleanup.Register.{
  AllTaken, find_next_empty_entry-panics_iff, register_lem,
}
use linux_kernel_development.Cleanup.Message.{
  PanicInfo, panic_handler, Shows, displayed, shown, panic_handler_lem,
}

abbrev World : Type 0
World = List ℕ

abbrev unlock : CleanupFn World
unlock arg w = ok (arg ∷ w)

abbrev held : ℕ → CleanupEntry World
held arg = record { valid = 1; cleanup_fn = some unlock; cleanup_arg = arg }

abbrev empty : CleanupEntry World
empty = record { valid = 0; cleanup_fn = none; cleanup_arg = 0 }

abbrev table : List (CleanupEntry World)
table = held 7 ∷ empty ∷ held 9 ∷ empty ∷ []

abbrev unwrapped : PanicInfo
unwrapped = record { message = some (some (111 ∷ 111 ∷ 112 ∷ 115 ∷ [])); payload = none }

cleanup_all_lem_example :
    cleanup_all table [] ≡ (run (live table) [] >>= λ w. ok (cleared (length table), w))
cleanup_all_lem_example = cleanup_all_lem table []

found_one : find_next_empty_entry table ≡ ok (1, empty)
unfolding find_next_empty_entry find_from
found_one = refl

find_next_empty_entry-panics_iff_example :
    (find_next_empty_entry (held 7 ∷ []) ≡ panics object_count_exceeded) ↔ AllTaken (held 7 ∷ [])
find_next_empty_entry-panics_iff_example = find_next_empty_entry-panics_iff (held 7 ∷ [])

register_lem_example :
    (es : List (CleanupEntry World)) × (index_mut table 1 (new_entry unlock 8) ≡ ok es)
    × (before : List (CleanupFn World × ℕ)) × (behind : List (CleanupFn World × ℕ)) × (live table
        ≡ before ++ behind)
    × (live es ≡ before ++ (unlock, 8) ∷ behind)
register_lem_example = register_lem table 1 empty unlock 8 found_one

panic_handler_lem_example :
    (msg : List ℕ) × Shows msg (displayed (shown unwrapped))
    × (panic_handler table [] unwrapped
        ≡ (run (live table) [] >>= λ w. ok (cleared (length table), w, msg)))
panic_handler_lem_example = panic_handler_lem table [] unwrapped
