-- ===== src/Tests/Kernel.antt =====
-- The helpers and the task accessors with a small kernel: a map from numbers to numbers that hands
-- out the pointer `key + 1`, and one task.
use linux_kernel_development.Prelude.{ℕ, ◌+◌, ◌-◌, ◌^◌, ◌≡◌, ◌≢◌, inl, refl, arith}
use linux_kernel_development.Prelude.{
  List, [], ◌∷◌, length, Option, none, some, ◌==◌, if◌then◌else◌, true, ok,
}
use linux_kernel_development.Prelude.Slices.{c_string}
use linux_kernel_development.Tests.{debug}
use linux_kernel_development.Utils.{Result, to_result32}
use linux_kernel_development.PerCpu.{Cpu, Symbols}
use linux_kernel_development.Task.{TaskStruct, get_comm}
use linux_kernel_development.Task.Laws.{get_comm-copies}
use linux_kernel_development.BaseHelper.{
  MapCalls, Calls, IuMap, bpf_map_lookup_elem, bpf_map_update_elem, bpf_map_delete_elem,
}
use linux_kernel_development.BaseHelper.Session.{Op, lookup, update, delete}
use linux_kernel_development.BaseHelper.Maps.{MapContract, found, lookup-update}

abbrev pub Held : Type 0
Held = ℕ → Option ℕ

abbrev pub pointer : Option ℕ → ℕ → ℕ
pointer none key = 0
pointer (some v) key = key + 1

abbrev pub behind : Option ℕ → ℕ
behind none = 0
behind (some v) = v

abbrev calls : MapCalls Held ℕ ℕ
calls = record {
  lookup = λ p key s. (pointer (s key) key, s);
  update = λ p key v flags s. (0, λ key'. if key == key' then some v else s key');
  delete = λ p key s. (0, λ key'. if key == key' then none else s key');
  push = λ p v flags s. (2 ^ 64 - 95, s);
  pop = λ p v s. (2 ^ 64 - 95, v, s);
  peek = λ p v s. (2 ^ 64 - 95, v, s);
}

pub same_key : (key : ℕ) → (key == key) ≡ true
same_key key = ground arith

pub found_again :
    (key : ℕ) (s : Held) (v : ℕ)
    → s key ≡ some v
    → (pointer (s key) key ≢ 0) × (behind (s (pointer (s key) key - 1)) ≡ v)
found_again key s v e =
    let same : key + 1 - 1 ≡ key = omega arith in (rw e (λ z. omega arith), rw (e, same, e) refl)

abbrev contract : MapContract calls 0x1000
contract = record {
  view = λ s key. s key;
  at = λ s ptr. behind (s (ptr - 1));
  same = λ key key'. key == key';
  same_refl = λ key. same_key key;
  lookup_keeps = λ key s key'. refl;
  lookup_finds = λ key s v e. found_again key s v e;
  lookup_misses = λ key s e. rw e refl;
  update_status = λ key v flags s. inl refl;
  update_stores = λ key v flags s e key'. refl;
  delete_status = λ key s. inl refl;
  delete_removes = λ key s e key'. refl;
  update_refused = λ key v flags s failed key'. absurd (failed refl);
  delete_refused = λ key s failed key'. absurd (failed refl);
}

abbrev pub map : IuMap
map = record {
  map_type = 1;
  key_size = 8;
  val_size = 8;
  max_size = 16;
  map_flag = 0;
  kptr = 0x1000;
}

abbrev pub start : Held
start key = if key == 3 then some 30 else none

updated :
    bpf_map_update_elem calls 22 map 4 40 0 start
    ≡ (Result.ok 0, λ key. if 4 == key then some 40 else start key)
unfolding bpf_map_update_elem to_result32
updated = refl

lookup-update_example :
    found calls 22 map
      (λ z. omega arith)
      contract
      (bpf_map_lookup_elem calls 22 map 3 (λ key. if 4 == key then some 40 else start key))
    ≡ some 30
lookup-update_example =
    lookup-update calls 22 map (λ z. omega arith) contract 4 40 0 start
      (λ key. if 4 == key then some 40 else start key) 0 updated 3

deleted :
    bpf_map_delete_elem calls 22 map 3 start
    ≡ (Result.ok 0, λ key. if 3 == key then none else start key)
unfolding bpf_map_delete_elem to_result32
deleted = refl

abbrev session : List (Op ℕ ℕ)
session = lookup 3 ∷ update 4 40 0 ∷ delete 3 ∷ lookup 4 ∷ []

abbrev pub idle : Calls Held
idle = record {
  trace_printk = λ fmt size a b c s. (size, s);
  ringbuf_reserve = λ p size flags s. (0, s);
  ringbuf_submit = λ ptr flags s. s;
  snprintf = λ str size fmt args count s. (0, str, s);
  get_random_u32 = λ s. (4, s);
  ktime_get_mono_fast_ns = λ s. 0;
  ktime_get_boot_fast_ns = λ s. 0;
}

abbrev pub symbols : Symbols
symbols = record {
  cpu_number = 0x10;
  numa_node = 0x18;
  iu_cleanup_entries = 0x20;
  iu_stack_ptr = 0x28;
  current_task = 0x30;
  just_return_func = 0x5000;
  per_cpu_offset = 0 ∷ 0x10000 ∷ [];
  jiffies = 77;
}

abbrev pub cpu : Cpu
cpu = record { gs = 0x10000; mem = λ addr. 1 }

abbrev task : TaskStruct
task = record {
  kptr = record { pid = 12; tgid = 12; stack = 0x8000; comm = 98 ∷ 97 ∷ 115 ∷ 104 ∷ 0 ∷ 0 ∷ [] };
}

get_comm-copies_example :
    (out : List ℕ) × (get_comm debug 22 task (9 ∷ 9 ∷ 9 ∷ []) ≡ ok (0, out))
    × (length out ≡ 3)
    × (c_string out ≡ 98 ∷ 97 ∷ [])
get_comm-copies_example = get_comm-copies debug 22 task (9 ∷ 9 ∷ 9 ∷ []) (omega arith) (omega arith)
