-- ===== src/Packet.antt =====
-- Packet memory as the XDP and traffic-control programs of inner_unikernel_rt see it: slices of raw
-- bytes, and headers that are cast from them (`convert_slice_to_struct` of xdp/xdp_impl.rs).
use linux_kernel_development.Prelude.{ℕ, ◌+◌, ◌-◌, ◌≤◌, ◌≡◌, ◌&&◌, arith}
use linux_kernel_development.Prelude.{
  leb, if◌then◌else◌, Outcome, ok, panics, out_of_bounds, assertion_failed, check,
}
use linux_kernel_development.Prelude.{◌>>=◌, ◌>>◌}
use linux_kernel_development.BaseHelper.{Slice}

-- The sizes of the generated header structures, `size_of::<ethhdr>()` and so on.
pub record Layout : Type 0 where
  pub ethhdr : ℕ
  pub iphdr : ℕ
  pub tcphdr : ℕ
  pub udphdr : ℕ

-- `&mut slice[begin..end]`.
pub subslice : Slice → ℕ → ℕ → Outcome Slice
subslice s begin end =
    if leb begin end && leb end s.len
    then ok (record { ptr = s.ptr + begin; len = end - begin })
    else panics out_of_bounds

-- `convert_slice_to_struct` and its mutable form, at a type of `size` bytes: the address of the
-- structure.
pub convert_slice_to_struct : ℕ → Slice → Outcome ℕ
convert_slice_to_struct size slice = do check (leb size slice.len) assertion_failed; ok slice.ptr

-- The header of `size` bytes at `begin`, up to `end`.
pub header_at : Slice → ℕ → ℕ → ℕ → Outcome ℕ
unfolding subslice convert_slice_to_struct
header_at s begin end size = do part ← subslice s begin end; convert_slice_to_struct size part

-- The header is returned if it ends inside the slice, and the call panics if not.
pub header_at_lem :
    (s : Slice) (begin end size : ℕ)
    → begin + size ≤ end
    → header_at s begin end size
      ≡ (if leb end s.len then ok (s.ptr + begin) else panics out_of_bounds)
unfolding header_at
header_at_lem s begin end size h = ground arith
