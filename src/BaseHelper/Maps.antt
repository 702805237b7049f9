-- ===== src/BaseHelper/Maps.antt =====
-- The map helpers of base_helper.rs keep the contract of the kernel's maps: what the kernel promises
-- of its own calls holds of the wrappers.
use linux_kernel_development.Prelude.{ℕ, ◌≡◌, ◌≢◌, ◌⊎◌, inl, inr, arith, ◌∙◌}
use linux_kernel_development.Prelude.{Option, none, some, Bool, true, Option-cases, if◌then◌else◌}
use linux_kernel_development.Prelude.Words.{as_u32, is_neg32}
use linux_kernel_development.Utils.{Result, to_result32}
use linux_kernel_development.BaseHelper.{
  MapCalls, IuMap, bpf_map_lookup_elem, bpf_map_update_elem, bpf_map_delete_elem,
}

-- The documented behaviour of a hash or array map behind the pointer `p`: `view` is what it holds
-- and `at` the value behind a pointer to one. A call returns 0 or a negative error number, and leaves
-- the map as it is if it fails.
pub record MapContract {S K V : Type 0} (k : MapCalls S K V) (p : ℕ) : Type 0 where
  pub view : S → K → Option V
  pub at : S → ℕ → V
  pub same : K → K → Bool
  pub same_refl : (key : K) → same key key ≡ true
  pub lookup_keeps : (key : K) (s : S) (key' : K) → view (k.lookup p key s).1 key' ≡ view s key'
  pub lookup_finds :
      (key : K) (s : S) (v : V)
      → view s key ≡ some v
      → ((k.lookup p key s).0 ≢ 0) × (at (k.lookup p key s).1 (k.lookup p key s).0 ≡ v)
  pub lookup_misses : (key : K) (s : S) → view s key ≡ none → (k.lookup p key s).0 ≡ 0
  pub update_status :
      (key : K) (v : V) (flags : ℕ) (s : S)
      → ((k.update p key v flags s).0 ≡ 0) ⊎ (is_neg32 (as_u32 (k.update p key v flags s).0) ≡ true)
  pub update_stores :
      (key : K) (v : V) (flags : ℕ) (s : S)
      → (k.update p key v flags s).0 ≡ 0
      → (key' : K)
      → view (k.update p key v flags s).1 key' ≡ (if same key key' then some v else view s key')
  pub update_refused :
      (key : K) (v : V) (flags : ℕ) (s : S)
      → (k.update p key v flags s).0 ≢ 0
      → (key' : K) → view (k.update p key v flags s).1 key' ≡ view s key'
  pub delete_status :
      (key : K) (s : S)
      → ((k.delete p key s).0 ≡ 0) ⊎ (is_neg32 (as_u32 (k.delete p key s).0) ≡ true)
  pub delete_removes :
      (key : K) (s : S)
      → (k.delete p key s).0 ≡ 0
      → (key' : K) → view (k.delete p key s).1 key' ≡ (if same key key' then none else view s key')
  pub delete_refused :
      (key : K) (s : S)
      → (k.delete p key s).0 ≢ 0
      → (key' : K) → view (k.delete p key s).1 key' ≡ view s key'

module _ {S K V : Type 0} (k : MapCalls S K V) (einval : ℕ) (map : IuMap) (loaded : map.kptr ≢ 0)
    (c : MapContract k map.kptr) where
  -- The value that a lookup's result refers to.
  abbrev pub found : Option ℕ × S → Option V
  found (none, s) = none
  found (some ptr, s) = some (c.at s ptr)

  -- For a loaded map whose kernel side keeps its contract: a lookup gives a reference to the value
  -- that the map holds for the key, `None` exactly if it holds none, and leaves the map as it is.
  pub bpf_map_lookup_elem_lem :
      (key : K) (s : S)
      → (found (bpf_map_lookup_elem k einval map key s) ≡ c.view s key)
        × ((key' : K) → c.view (bpf_map_lookup_elem k einval map key s).1 key' ≡ c.view s key')
  unfolding bpf_map_lookup_elem
  bpf_map_lookup_elem_lem key s =
      (by_view (Option-cases (c.view s key)), λ key'. ground (arith, c.lookup_keeps key s key'))
    where
      by_view :
          (c.view s key ≡ none) ⊎ ((v : V) × (c.view s key ≡ some v))
          → found (bpf_map_lookup_elem k einval map key s) ≡ c.view s key
      by_view (inl e) = ground (arith, c.lookup_misses key s e)
      by_view (inr (v, e)) = ground (arith, c.lookup_finds key s v e)

  -- What an update or a delete that returned `Ok` leaves in the map.
  pub bpf_map_update_elem-view :
      (key : K) (v : V) (flags : ℕ) (s s' : S) (r : ℕ)
      → bpf_map_update_elem k einval map key v flags s ≡ (Result.ok r, s')
      → (key' : K) → c.view s' key' ≡ (if c.same key key' then some v else c.view s key')
  unfolding bpf_map_update_elem to_result32
  bpf_map_update_elem-view key v flags s s' r h key' =
      let done : (k.update map.kptr key v flags s).0 ≡ 0 =
        ground (arith, c.update_status key v flags s) in
      let after : s' ≡ (k.update map.kptr key v flags s).1 = ground arith in
      rw after (c.update_stores key v flags s done key')

  pub bpf_map_delete_elem-view :
      (key : K) (s s' : S) (r : ℕ)
      → bpf_map_delete_elem k einval map key s ≡ (Result.ok r, s')
      → (key' : K) → c.view s' key' ≡ (if c.same key key' then none else c.view s key')
  unfolding bpf_map_delete_elem to_result32
  bpf_map_delete_elem-view key s s' r h key' =
      let done : (k.delete map.kptr key s).0 ≡ 0 = ground (arith, c.delete_status key s) in
      let after : s' ≡ (k.delete map.kptr key s).1 = ground arith in
      rw after (c.delete_removes key s done key')

  -- For a loaded map whose kernel side keeps its contract: after an update that returned `Ok`, a
  -- lookup of its key gives the new value, and of any other key what the map held for it before.
  pub lookup-update :
      (key : K) (v : V) (flags : ℕ) (s s' : S) (r : ℕ)
      → bpf_map_update_elem k einval map key v flags s ≡ (Result.ok r, s')
      → (key' : K)
      → found (bpf_map_lookup_elem k einval map key' s')
        ≡ (if c.same key key' then some v else c.view s key')
  lookup-update key v flags s s' r h key' =
      (bpf_map_lookup_elem_lem key' s').0 ∙ bpf_map_update_elem-view key v flags s s' r h key'

  -- For a loaded map whose kernel side keeps its contract: after a delete that returned `Ok`, a
  -- lookup of its key gives `None`, and of any other key what the map held for it before.
  lookup-delete :
      (key : K) (s s' : S) (r : ℕ)
      → bpf_map_delete_elem k einval map key s ≡ (Result.ok r, s')
      → (key' : K)
      → found (bpf_map_lookup_elem k einval map key' s')
        ≡ (if c.same key key' then none else c.view s key')
  lookup-delete key s s' r h key' =
      (bpf_map_lookup_elem_lem key' s').0 ∙ bpf_map_delete_elem-view key s s' r h key'
