-- ===== src/BaseHelper/Session.antt =====
-- A program's calls on one map, in any number and order, through the object of base_helper.rs.
use linux_kernel_development.Prelude.{ℕ, ◌≢◌}
use linux_kernel_development.Prelude.{Bool, List, [], ◌∷◌, Option, none, some, if◌then◌else◌}
use linux_kernel_development.Utils.{Result}
use linux_kernel_development.BaseHelper.{
  MapCalls, IuMap, bpf_map_lookup_elem, bpf_map_update_elem, bpf_map_delete_elem,
}
use linux_kernel_development.BaseHelper.Maps.{MapContract, found}

-- A call, and what the program learns from it.
pub data Op (K V : Type 0) : Type 0 where
  lookup : K → Op K V
  update : K → V → ℕ → Op K V
  delete : K → Op K V

pub data Answer (V : Type 0) : Type 0 where
  value : Option V → Answer V
  done : Answer V
  refused : ℕ → Answer V

-- The calls on a map that is a function from keys: each answer and the contents after all of them. A
-- call that changes the map may be refused, and then it changes nothing.
pub data Replay {K V : Type 0} (same : K → K → Bool)
    : (K → Option V) → List (Op K V) → List (Answer V) → (K → Option V) → Type 0 where
  ended : (m : K → Option V) → Replay same m [] [] m
  looked :
      (m m' : K → Option V) (key : K) (ops : List (Op K V)) (answers : List (Answer V))
      → Replay same m ops answers m'
      → Replay same m (lookup key ∷ ops) (value (m key) ∷ answers) m'
  updated :
      (m m' : K → Option V) (key : K) (v : V) (flags : ℕ) (ops : List (Op K V))
      (answers : List (Answer V))
      → Replay same (λ key'. if same key key' then some v else m key') ops answers m'
      → Replay same m (update key v flags ∷ ops) (done ∷ answers) m'
  not_updated :
      (m m' : K → Option V) (key : K) (v : V) (flags e : ℕ) (ops : List (Op K V))
      (answers : List (Answer V))
      → Replay same m ops answers m'
      → Replay same m (update key v flags ∷ ops) (refused e ∷ answers) m'
  deleted :
      (m m' : K → Option V) (key : K) (ops : List (Op K V)) (answers : List (Answer V))
      → Replay same (λ key'. if same key key' then none else m key') ops answers m'
      → Replay same m (delete key ∷ ops) (done ∷ answers) m'
  not_deleted :
      (m m' : K → Option V) (key : K) (e : ℕ) (ops : List (Op K V)) (answers : List (Answer V))
      → Replay same m ops answers m'
      → Replay same m (delete key ∷ ops) (refused e ∷ answers) m'

abbrev answer : {V : Type 0} → Result → Answer V
answer (Result.ok v) = done
answer (Result.err e) = refused e

module _ {S K V : Type 0} (k : MapCalls S K V) (einval : ℕ) (map : IuMap) (loaded : map.kptr ≢ 0)
    (c : MapContract k map.kptr) where
  -- The calls through the helpers, with the values that the references refer to.
  pub run : List (Op K V) → S → List (Answer V) × S
  run [] s = ([], s)
  run (lookup key ∷ ops) s =
      let looked = bpf_map_lookup_elem k einval map key s in
      let (answers, s') = run ops looked.1 in
      (value (found k einval map loaded c looked) ∷ answers, s')
  run (update key v flags ∷ ops) s =
      let (result, s1) = bpf_map_update_elem k einval map key v flags s in
      let (answers, s') = run ops s1 in (answer result ∷ answers, s')
  run (delete key ∷ ops) s =
      let (result, s1) = bpf_map_delete_elem k einval map key s in
      let (answers, s') = run ops s1 in (answer result ∷ answers, s')
