-- ===== src/StructFilter/Access.antt =====
-- The bound of inner_unikernel_rt/src/utils.rs that the code which the derive macro generates must
-- meet: `direct_packet_access_ok::<T>()` compiles for a number and for an array of numbers. Which
-- primitive type a path names is the compiler's to say.
use linux_kernel_development.Prelude.{
  List, [], ◌∷◌, Bool, true, false, ◌&&◌, ◌||◌, ◌≡◌, Option, none, some,
}
use linux_kernel_development.StructFilter.{
  Ty, path, array, reference, other, Expansion, compile_error, generated,
}
use linux_kernel_development.StructFilter.Laws.{IsNumericName}
use Prim.Native.String.{String}
use text.Mathlib.Text.{◌==◌}

-- The primitive types that the trait is implemented for.
has_impl : String → Bool
has_impl prim =
    prim == "u64"
    || prim == "i64"
    || prim == "u32"
    || prim == "i32"
    || prim == "u16"
    || prim == "i16"
    || prim == "u8"
    || prim == "i8"

module _ (resolves : List String → Option String) where
  -- The implementations for numbers, and those for numbers and arrays of them.
  pub impl_number : Ty → Bool
  impl_number (path segments) = elim (resolves segments) [
    | none ↦ false
    | some prim ↦ has_impl prim
  ]
  impl_number (array elem) = false
  impl_number (reference elem) = false
  impl_number other = false

  pub direct_packet_access_ok : Ty → Bool
  direct_packet_access_ok (array elem) = impl_number elem
  direct_packet_access_ok (path segments) = impl_number (path segments)
  direct_packet_access_ok (reference elem) = false
  direct_packet_access_ok other = false

  all_ok : List Ty → Bool
  all_ok [] = true
  all_ok (ty ∷ tys) = direct_packet_access_ok ty && all_ok tys

  -- Whether the compiler takes what the macro expands to.
  pub compiles : Expansion → Bool
  compiles (compile_error e) = false
  compiles (generated tys) = all_ok tys

  -- Numbers, and types that are laid out as numbers without references.
  pub data IsNumber : Ty → Type 0 where
    number :
        (segments : List String) (prim : String)
        → resolves segments ≡ some prim
        → IsNumericName prim
        → IsNumber (path segments)

  pub data IsPlain : Ty → Type 0 where
    plain : (ty : Ty) → IsNumber ty → IsPlain ty
    plain_array : (ty : Ty) → IsNumber ty → IsPlain (array ty)

  pub data AllPlain : List Ty → Type 0 where
    no_type : AllPlain []
    next_type : (ty : Ty) (tys : List Ty) → IsPlain ty → AllPlain tys → AllPlain (ty ∷ tys)
