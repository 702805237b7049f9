-- ===== src/SchedCls/Laws.antt =====
-- Header access of sched_cls_impl.rs, and what a redirect does to it.
use linux_kernel_development.Prelude.{
  ℕ, ◌+◌, ◌≤◌, ◌<◌, ◌≡◌, ◌≢◌, ◌⊎◌, refl, arith, leb, if◌then◌else◌, ◌==◌,
}
use linux_kernel_development.Prelude.{Outcome, ok, panics, out_of_bounds, Bool-cases, inl, inr}
use linux_kernel_development.Packet.{Layout, header_at_lem}
use linux_kernel_development.SchedCls.{
  KernelSkBuff, SkBuff, packet, header_slice, convert_ctx, eth_header, ip_header, udp_header,
  tcp_header, data_slice_mut, bpf_clone_redirect,
}

-- The header of `size` bytes at `offset` is given, or the call panics because it does not end inside
-- the first `len` bytes.
abbrev pub Gives : SkBuff → Outcome ℕ → ℕ → ℕ → Type 0
Gives skb result offset size =
    result
    ≡ (if leb (offset + size) skb.len then ok (skb.kptr.start + offset) else panics out_of_bounds)

-- The four header functions give the Ethernet header at the start of the packet, the IP header right
-- behind it, and a UDP or TCP header right behind that, and each panics exactly if its header does
-- not end within the context's `len`. The Ethernet header is taken to have 14 bytes.
pub headers_lem :
    (sizes : Layout) (skb : SkBuff)
    → sizes.ethhdr ≡ 14
    → Gives skb (eth_header sizes skb) 0 sizes.ethhdr
      × Gives skb (ip_header sizes skb) sizes.ethhdr sizes.iphdr
      × Gives skb (udp_header sizes skb) (sizes.ethhdr + sizes.iphdr) sizes.udphdr
      × Gives skb (tcp_header sizes skb) (sizes.ethhdr + sizes.iphdr) sizes.tcphdr
unfolding eth_header ip_header udp_header tcp_header
headers_lem sizes skb h = (
  ground (arith, header_at_lem (header_slice skb) 0 14 sizes.ethhdr),
  ground (
    arith,
    header_at_lem (header_slice skb) sizes.ethhdr (sizes.iphdr + sizes.ethhdr) sizes.iphdr,
  ),
  ground (arith, header_at_lem (header_slice skb) behind (sizes.udphdr + behind) sizes.udphdr),
  ground (arith, header_at_lem (header_slice skb) behind (sizes.tcphdr + behind) sizes.tcphdr),
)
  where
    behind : ℕ
    behind = sizes.ethhdr + sizes.iphdr

-- Access to the Ethernet header stays inside the kernel's packet.
abbrev pub EthernetInside : Layout → SkBuff → Type 0
EthernetInside sizes skb =
    (at : ℕ) → eth_header sizes skb ≡ ok at → at + 14 ≤ skb.kptr.start + skb.kptr.len

-- With a header type of at most 14 bytes: in the context that a program is given, the 14 bytes of
-- an Ethernet header that `eth_header` hands out lie inside the kernel's packet.
convert_ctx-EthernetInside :
    (sizes : Layout) (kptr : KernelSkBuff)
    → sizes.ethhdr ≤ 14
    → EthernetInside sizes (convert_ctx kptr)
unfolding convert_ctx eth_header
convert_ctx-EthernetInside sizes kptr small at h =
    ground (arith, header_at_lem (packet kptr) 0 14 sizes.ethhdr)

-- A redirect hands on the kernel's status. If it succeeds, the slices are those of the kernel's packet
-- as it then is, and the context is otherwise as before. If it fails, no cached field changes.
bpf_clone_redirect_lem :
    (call : KernelSkBuff → ℕ → ℕ → ℕ × KernelSkBuff) (skb : SkBuff) (ifindex flags : ℕ)
    → let (ret, kptr) = call skb.kptr ifindex flags in
      let (status, skb') = bpf_clone_redirect call skb ifindex flags in
      (status ≡ ret)
      × (data_slice_mut skb' ≡ packet kptr)
      × (((ret ≡ 0)
            × (skb'.data_slice ≡ packet kptr)
            × (record skb' { start = skb.start; data_slice = skb.data_slice; kptr = skb.kptr }
                ≡ skb))
          ⊎ ((ret ≢ 0) × (record skb' { kptr = skb.kptr } ≡ skb)))
unfolding bpf_clone_redirect data_slice_mut
bpf_clone_redirect_lem call skb ifindex flags =
    elim (Bool-cases ((call skb.kptr ifindex flags).0 == 0)) [
      | inl done ↦ rw done (ground arith, refl, inl (ground arith, refl, refl))
      | inr failed ↦ rw failed (refl, refl, inr (λ e. absurd (ground arith), refl))
    ]

-- A redirect does not update `len`, and the header functions go by it: with a header type of at
-- most 14 bytes, if the redirect succeeds and the kernel leaves a packet of less than 14 bytes
-- where `len` has 14 or more, the Ethernet header is still given, although it reaches beyond the
-- packet.
pub bpf_clone_redirect-not-EthernetInside :
    (sizes : Layout) (call : KernelSkBuff → ℕ → ℕ → ℕ × KernelSkBuff) (skb : SkBuff)
    (ifindex flags : ℕ)
    → sizes.ethhdr ≤ 14
    → 14 ≤ skb.len
    → (call skb.kptr ifindex flags).0 ≡ 0
    → (call skb.kptr ifindex flags).1.len < 14
    → ¬ EthernetInside sizes (bpf_clone_redirect call skb ifindex flags).1
unfolding bpf_clone_redirect eth_header
bpf_clone_redirect-not-EthernetInside sizes call skb ifindex flags small long done short inside =
    let kptr : KernelSkBuff = (call skb.kptr ifindex flags).1 in
    let beyond : kptr.start + 14 ≤ kptr.start + kptr.len = ground (
      arith,
      inside kptr.start,
      header_at_lem (record { ptr = kptr.start; len = skb.len }) 0 14 sizes.ethhdr (omega arith),
    ) in
    omega arith
