-- ===== src/Xdp/Laws.antt =====
-- The XDP context of xdp_impl.rs stays a view of the kernel's buffer, and header access stays inside it.
use linux_kernel_development.Prelude.{ℕ, ◌+◌, ◌-◌, ◌≤◌, ◌<◌, ◌≡◌, ◌≢◌, ◌⊎◌, refl, arith, leb}
use linux_kernel_development.Prelude.{ok, panics, out_of_bounds, ◌==◌, Bool-cases, inl, inr}
use linux_kernel_development.Build.{Build, sub64-fits}
use linux_kernel_development.Prelude.Words.{as_u32}
use linux_kernel_development.Packet.{Layout, header_at_lem}
use linux_kernel_development.Xdp.{
  XdpBuff, XdpMd, view_of, convert_ctx, bpf_xdp_adjust_tail, eth_header,
}

-- Every cached field of the context is what the code makes of the kernel's buffer: `ingress_ifindex`
-- is the low half of the queue's address, and `egress_ifindex` is 0.
pub record IsView (ctx : XdpMd) : Type 0 where
  pub same_start : ctx.start ≡ ctx.kptr.start
  pub same_end : ctx.data_end ≡ ctx.kptr.data_end
  pub same_meta : ctx.data_meta ≡ ctx.kptr.data_meta
  pub same_ingress : ctx.ingress_ifindex ≡ as_u32 ctx.kptr.rxq
  pub same_queue : ctx.rx_queue_index ≡ ctx.kptr.rxq_queue_index
  pub no_egress : ctx.egress_ifindex ≡ 0
  pub spans : ctx.start + ctx.data_length ≡ ctx.data_end
  pub slice_start : ctx.data_slice.ptr ≡ ctx.start
  pub slice_length : ctx.data_slice.len ≡ ctx.data_length

-- A buffer whose end is not before its start.
abbrev pub IsPacket : XdpBuff → Type 0
IsPacket k = k.start ≤ k.data_end

view_of-IsView :
    (kptr : XdpBuff) → IsPacket kptr → IsView (view_of kptr (kptr.data_end - kptr.start))
unfolding view_of
view_of-IsView kptr h = record {
  same_start = refl;
  same_end = refl;
  same_meta = refl;
  same_ingress = refl;
  same_queue = refl;
  no_egress = refl;
  spans = omega arith;
  slice_start = refl;
  slice_length = refl;
}

module _ (b : Build) where
  -- From a kernel buffer whose end is not before its start, the context for the program is made
  -- without a panic, and it is a view of that buffer: every cached field agrees with it.
  convert_ctx-IsView :
      (kptr : XdpBuff)
      → IsPacket kptr
      → (ctx : XdpMd) × (convert_ctx b kptr ≡ ok ctx) × (ctx.kptr ≡ kptr) × IsView ctx
  unfolding convert_ctx
  convert_ctx-IsView kptr h =
      let length : ℕ = kptr.data_end - kptr.start in
      (
        view_of kptr length,
        rw (sub64-fits b kptr.data_end kptr.start h),
        unfold view_of in refl,
        view_of-IsView kptr h,
      )

  -- Adjusting the tail never panics on a buffer that the kernel leaves well formed, and the context
  -- refers to that buffer. On success the context is a view of the buffer as the kernel left it. A
  -- failure is passed on, and changes no cached field.
  pub bpf_xdp_adjust_tail_lem :
      (call : XdpBuff → ℕ → ℕ × XdpBuff) (ctx : XdpMd) (offset : ℕ)
      → IsPacket (call ctx.kptr offset).1
      → let (ret, kptr) = call ctx.kptr offset in
        (ctx' : XdpMd) × (bpf_xdp_adjust_tail b call ctx offset ≡ ok (ret, ctx'))
        × (ctx'.kptr ≡ kptr)
        × (((ret ≡ 0) × IsView ctx') ⊎ ((ret ≢ 0) × (record ctx' { kptr = ctx.kptr } ≡ ctx)))
  unfolding bpf_xdp_adjust_tail
  bpf_xdp_adjust_tail_lem call ctx offset h = elim (Bool-cases ((call ctx.kptr offset).0 == 0)) [
    | inl done ↦
        let kptr : XdpBuff = (call ctx.kptr offset).1 in
        let length : ℕ = kptr.data_end - kptr.start in
        (
          view_of kptr length,
          ground (arith, sub64-fits b kptr.data_end kptr.start h),
          unfold view_of in refl,
          inl (ground arith, view_of-IsView kptr h),
        )
    | inr failed ↦ (
      record ctx { kptr = (call ctx.kptr offset).1 },
      ground arith,
      refl,
      inr (λ e. absurd (ground arith), refl),
    )
  ]

-- With a header type of at most 14 bytes, in a context that is a view of the kernel's buffer: the
-- Ethernet header of a packet of at least 14 bytes is at its start and ends inside it; on a shorter
-- packet the call panics instead of reading past its end.
eth_header_lem :
    (sizes : Layout) (ctx : XdpMd)
    → sizes.ethhdr ≤ 14
    → IsView ctx
    → ((14 ≤ ctx.data_length)
        × (eth_header sizes ctx ≡ ok ctx.kptr.start)
        × (ctx.kptr.start + sizes.ethhdr ≤ ctx.kptr.data_end))
      ⊎ ((ctx.data_length < 14) × (eth_header sizes ctx ≡ panics out_of_bounds))
unfolding eth_header
eth_header_lem sizes ctx small v =
    let at =
      header_at_lem (record { ptr = ctx.kptr.start; len = ctx.data_length }) 0 14 sizes.ethhdr
        (omega arith) in
    elim (Bool-cases (leb 14 ctx.data_length)) [
      | inl long ↦ inl (ground arith, ground (arith, at), ground arith)
      | inr short ↦ inr (ground arith, ground (arith, at))
    ]
