-- ===== src/Tests/Contexts.antt =====
-- The contexts of the packet programs and the entry points at concrete buffers.
use linux_kernel_development.Prelude.{ℕ, ◌+◌, ◌-◌, ◌^◌, ◌≡◌, ◌≢◌, ◌⊎◌, refl, arith, []}
use linux_kernel_development.Prelude.{Outcome, ok}
use linux_kernel_development.Tests.{debug}
use linux_kernel_development.Utils.{Result}
use linux_kernel_development.Packet.{Layout}
use linux_kernel_development.Xdp.{XdpBuff, XdpMd, bpf_xdp_adjust_tail}
use linux_kernel_development.Xdp.Laws.{IsView, bpf_xdp_adjust_tail_lem}
use linux_kernel_development.SchedCls
use linux_kernel_development.SchedCls.{
  KernelSkBuff, SkBuff, packet, bpf_clone_redirect, data_slice_mut, ip_header, udp_header,
  tcp_header,
}
use linux_kernel_development.SchedCls.Laws.{
  Gives, EthernetInside, headers_lem, bpf_clone_redirect-not-EthernetInside,
}
use linux_kernel_development.Programs.{Event, xdp}

abbrev sizes : Layout
sizes = record { ethhdr = 14; iphdr = 20; tcphdr = 20; udphdr = 8 }

abbrev frame : XdpBuff
frame = record {
  start = 0x1000;
  data_end = 0x1040;
  data_meta = 0x1000;
  rxq = 0x9000;
  rxq_queue_index = 2;
}

-- The context of `frame`.
abbrev frame_ctx : XdpMd
frame_ctx = record {
  start = 0x1000;
  data_end = 0x1040;
  data_slice = record { ptr = 0x1000; len = 0x40 };
  data_length = 0x40;
  data_meta = 0x1000;
  ingress_ifindex = 0x9000;
  rx_queue_index = 2;
  egress_ifindex = 0;
  kptr = frame;
}

-- A kernel that cuts 16 bytes off the end.
abbrev cut : XdpBuff → ℕ → ℕ × XdpBuff
cut kptr offset = (0, record kptr { data_end = kptr.data_end - 16 })

bpf_xdp_adjust_tail_lem_example :
    let ret : ℕ = (cut frame 16).0 in
    let kptr : XdpBuff = (cut frame 16).1 in
    (ctx' : XdpMd) × (bpf_xdp_adjust_tail debug cut frame_ctx 16 ≡ ok (0, ctx'))
    × (ctx'.kptr ≡ kptr)
    × (((ret ≡ 0) × IsView ctx') ⊎ ((ret ≢ 0) × (record ctx' { kptr = frame } ≡ frame_ctx)))
bpf_xdp_adjust_tail_lem_example = bpf_xdp_adjust_tail_lem debug cut frame_ctx 16 (omega arith)

abbrev buffer : KernelSkBuff
buffer = record {
  start = 0x1000;
  len = 64;
  protocol = 8;
  priority = 0;
  hash = 0;
  queue_mapping = 1;
  vlan_tci = 0;
  vlan_proto = 0;
  cb = [];
  tc_index = 0;
  sk = 0x7000;
  dev_ifindex = 3;
}

abbrev skb : SkBuff
skb = record {
  len = 64;
  protocol = 8;
  priority = 0;
  ingress_ifindex = 0;
  ifindex = 3;
  hash = 0;
  mark = 0;
  pkt_type = 0;
  queue_mapping = 1;
  vlan_present = 0;
  vlan_tci = 0;
  vlan_proto = 0;
  cb = [];
  tc_classid = 0;
  tc_index = 0;
  napi_id = 0;
  sk = 0x7000;
  start = 0x1000;
  data_meta = 0;
  data_slice = record { ptr = 0x1000; len = 64 };
  kptr = buffer;
}

-- A kernel that leaves ten bytes.
abbrev pull : KernelSkBuff → ℕ → ℕ → ℕ × KernelSkBuff
pull kptr ifindex flags = (0, record kptr { len = 10 })

headers_lem_example :
    Gives skb (SchedCls.eth_header sizes skb) 0 14
    × Gives skb (ip_header sizes skb) 14 20
    × Gives skb (udp_header sizes skb) 34 8
    × Gives skb (tcp_header sizes skb) 34 20
headers_lem_example = headers_lem sizes skb refl

bpf_clone_redirect-not-EthernetInside_example :
    ¬ EthernetInside sizes (bpf_clone_redirect pull skb 3 0).1
bpf_clone_redirect-not-EthernetInside_example =
    bpf_clone_redirect-not-EthernetInside sizes pull skb 3 0 (omega arith) (omega arith) refl
      (omega arith)

-- An XDP program that fails with EINVAL and counts its runs.
abbrev refusing : XdpMd → ℕ → Outcome (Result × ℕ)
refusing ctx s = ok (Result.err (2 ^ 32 - 22), s + 1)

abbrev received : Event ℕ
received = xdp refusing frame
