-- ===== src/SchedCls.antt =====
-- inner_unikernel_rt/src/sched_cls/sched_cls_impl.rs: the context of a traffic-control program.
-- `kptr` holds what the kernel's `sk_buff` contains at the time; the kernel's calls change it.
pub mod Laws
use linux_kernel_development.Prelude.{ℕ, ◌+◌, ◌==◌, if◌then◌else◌, List, Outcome, ok, ◌>>=◌}
use linux_kernel_development.Prelude.Words.{as_u32}
use linux_kernel_development.BaseHelper.{Slice}
use linux_kernel_development.Packet.{Layout, header_at}
use linux_kernel_development.Utils.{Result, unwrap_or_else}

-- The fields of `struct sk_buff` that are read: `start` is its `data`, and `dev_ifindex` the index
-- behind its device pointer.
pub record KernelSkBuff : Type 0 where
  pub start : ℕ
  pub len : ℕ
  pub protocol : ℕ
  pub priority : ℕ
  pub hash : ℕ
  pub queue_mapping : ℕ
  pub vlan_tci : ℕ
  pub vlan_proto : ℕ
  pub cb : List ℕ
  pub tc_index : ℕ
  pub sk : ℕ
  pub dev_ifindex : ℕ

-- `__sk_buff`; `start` is its `data`.
pub record SkBuff : Type 0 where
  pub len : ℕ
  pub protocol : ℕ
  pub priority : ℕ
  pub ingress_ifindex : ℕ
  pub ifindex : ℕ
  pub hash : ℕ
  pub mark : ℕ
  pub pkt_type : ℕ
  pub queue_mapping : ℕ
  pub vlan_present : ℕ
  pub vlan_tci : ℕ
  pub vlan_proto : ℕ
  pub cb : List ℕ
  pub tc_classid : ℕ
  pub tc_index : ℕ
  pub napi_id : ℕ
  pub sk : ℕ
  pub start : ℕ
  pub data_meta : ℕ
  pub data_slice : Slice
  pub kptr : KernelSkBuff

-- `slice::from_raw_parts_mut(kptr.data, kptr.len)`.
abbrev pub packet : KernelSkBuff → Slice
packet kptr = record { ptr = kptr.start; len = kptr.len }

unfoldable pub convert_ctx : KernelSkBuff → SkBuff
convert_ctx kptr = record {
  len = kptr.len;
  protocol = kptr.protocol;
  priority = kptr.priority;
  ingress_ifindex = 0;
  ifindex = as_u32 kptr.dev_ifindex;
  hash = kptr.hash;
  mark = 0;
  pkt_type = 0;
  queue_mapping = kptr.queue_mapping;
  vlan_present = 0;
  vlan_tci = kptr.vlan_tci;
  vlan_proto = kptr.vlan_proto;
  cb = kptr.cb;
  tc_classid = 0;
  tc_index = kptr.tc_index;
  napi_id = 0;
  sk = kptr.sk;
  start = as_u32 kptr.start;
  data_meta = 0;
  data_slice = packet kptr;
  kptr = kptr;
}

-- The slice that the header functions cut from: the kernel's address, with the length that the
-- context holds.
abbrev pub header_slice : SkBuff → Slice
header_slice skb = record { ptr = skb.kptr.start; len = skb.len }

-- The addresses of the headers; an IP header is assumed behind an Ethernet header, and a UDP or TCP
-- header behind both.
module _ (sizes : Layout) (skb : SkBuff) where
  unfoldable pub eth_header : Outcome ℕ
  eth_header = header_at (header_slice skb) 0 14 sizes.ethhdr

  pub ip_header : Outcome ℕ
  ip_header =
      let begin = sizes.ethhdr in
      let end = sizes.iphdr + begin in header_at (header_slice skb) begin end sizes.iphdr

  pub udp_header : Outcome ℕ
  udp_header =
      let begin = sizes.ethhdr + sizes.iphdr in
      let end = sizes.udphdr + begin in header_at (header_slice skb) begin end sizes.udphdr

  pub tcp_header : Outcome ℕ
  tcp_header =
      let begin = sizes.ethhdr + sizes.iphdr in
      let end = sizes.tcphdr + begin in header_at (header_slice skb) begin end sizes.tcphdr

pub data_slice_mut : SkBuff → Slice
data_slice_mut skb = packet skb.kptr

-- The kernel's call gives its status, an `i32`, and the buffer after it.
pub bpf_clone_redirect : (KernelSkBuff → ℕ → ℕ → ℕ × KernelSkBuff) → SkBuff → ℕ → ℕ → ℕ × SkBuff
bpf_clone_redirect call skb ifindex flags =
    let (ret, kptr) = call skb.kptr ifindex flags in
    if ret == 0
    then (0, record skb { start = as_u32 kptr.start; data_slice = packet kptr; kptr = kptr })
    else (ret, record skb { kptr = kptr })

-- `prog_run`: the program may panic; `tc_act_ok` is the generated TC_ACT_OK.
unfoldable pub prog_run :
    {S : Type 0} → (SkBuff → S → Outcome (Result × S)) → ℕ → KernelSkBuff → S → Outcome (ℕ × S)
prog_run prog tc_act_ok kptr s = do
  (result, s') ← prog (convert_ctx kptr) s
  ok (unwrap_or_else result tc_act_ok, s')
