-- ===== src/Xdp.antt =====
-- inner_unikernel_rt/src/xdp/xdp_impl.rs: the context of an XDP program. `kptr` holds what the
-- kernel's `xdp_buff` contains at the time; the kernel's calls change it in place.
pub mod Laws
use linux_kernel_development.Prelude.{ℕ, ◌+◌, ◌-◌, ◌==◌, if◌then◌else◌}
use linux_kernel_development.Prelude.{Outcome, ok, panics, not_implemented, ◌>>=◌}
use linux_kernel_development.Prelude.Words.{as_u32}
use linux_kernel_development.Build.{Build, sub64}
use linux_kernel_development.BaseHelper.{Slice}
use linux_kernel_development.Packet.{Layout, header_at}
use linux_kernel_development.Utils.{Result, unwrap_or_else}

-- The fields of `struct xdp_buff` that are read; `start` is its `data`, `rxq` is a pointer, with the queue index behind it.
pub record XdpBuff : Type 0 where
  pub start : ℕ
  pub data_end : ℕ
  pub data_meta : ℕ
  pub rxq : ℕ
  pub rxq_queue_index : ℕ

-- `xdp_md`; `start` is its `data`.
pub record XdpMd : Type 0 where
  pub start : ℕ
  pub data_end : ℕ
  pub data_slice : Slice
  pub data_length : ℕ
  pub data_meta : ℕ
  pub ingress_ifindex : ℕ
  pub rx_queue_index : ℕ
  pub egress_ifindex : ℕ
  pub kptr : XdpBuff

-- The fields as `convert_ctx` builds them, and as `bpf_xdp_adjust_tail` assigns them again.
pub view_of : XdpBuff → ℕ → XdpMd
view_of kptr data_length = record {
  start = kptr.start;
  data_end = kptr.data_end;
  data_slice = record { ptr = kptr.start; len = data_length };
  data_length = data_length;
  data_meta = kptr.data_meta;
  ingress_ifindex = as_u32 kptr.rxq;
  rx_queue_index = kptr.rxq_queue_index;
  egress_ifindex = 0;
  kptr = kptr;
}

module _ (b : Build) where
  pub convert_ctx : XdpBuff → Outcome XdpMd
  convert_ctx kptr = do
    data_length ← sub64 b kptr.data_end kptr.start
    ok (view_of kptr data_length)

  -- The kernel's call gives its status, an `i32`, and the buffer after it.
  pub bpf_xdp_adjust_tail : (XdpBuff → ℕ → ℕ × XdpBuff) → XdpMd → ℕ → Outcome (ℕ × XdpMd)
  bpf_xdp_adjust_tail call ctx offset =
      let (ret, kptr) = call ctx.kptr offset in
      if ret == 0
      then (do data_length ← sub64 b kptr.data_end kptr.start; ok (0, view_of kptr data_length))
      else ok (ret, record ctx { kptr = kptr })

  pub data_slice_mut : XdpMd → Outcome Slice
  data_slice_mut ctx = do
    data_length ← sub64 b ctx.kptr.data_end ctx.kptr.start
    ok (record { ptr = ctx.kptr.start; len = data_length })

  -- `prog_run`: the program may panic; `xdp_pass` is the generated XDP_PASS.
  unfoldable pub prog_run :
      {S : Type 0} → (XdpMd → S → Outcome (Result × S)) → ℕ → XdpBuff → S → Outcome (ℕ × S)
  prog_run prog xdp_pass kptr s = do
    ctx ← convert_ctx kptr
    (result, s') ← prog ctx s
    ok (unwrap_or_else result xdp_pass, s')

-- The address of the Ethernet header.
pub eth_header : Layout → XdpMd → Outcome ℕ
eth_header sizes ctx =
    header_at (record { ptr = ctx.kptr.start; len = ctx.data_length }) 0 14 sizes.ethhdr

-- `ip_header`, `tcp_header` and `udp_header` are all `todo!`.
pub other_header : XdpMd → Outcome ℕ
other_header ctx = panics not_implemented
