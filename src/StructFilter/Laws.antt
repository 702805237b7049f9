-- ===== src/StructFilter/Laws.antt =====
-- Which items the derive macro of struct_filter/src/lib.rs accepts.
use linux_kernel_development.Prelude.{
  List, [], ◌∷◌, map, Bool, true, false, ◌||◌, ◌≡◌, ◌↔◌, refl, sym, ap, ◌∙◌, inl, inr,
}
use linux_kernel_development.Prelude.{Outcome, ok, >>=-eq-ok, Bool-cases}
use linux_kernel_development.StructFilter.{
  Ty, path, array, reference, other, last_segment, is_numeric_name, type_checking, FieldCheck,
  accepted, not_numeric, not_validate, field_type_check, named, unnamed, unit, Item, struct,
  enumeration, union, Expansion, compile_error, generated, check_fields, check_item, tokens,
  ensure_numberic, continued,
}
use Prim.Native.String.{String}
use text.Mathlib.TextEquality.{eq_iff}
use mathlib.Core.Path.{subst}
use text.Mathlib.Text.{◌==◌}

-- The numeric types of the macro.
pub data IsNumericName : String → Type 0 where
  u8 : IsNumericName "u8"
  i8 : IsNumericName "i8"
  i16 : IsNumericName "i16"
  u16 : IsNumericName "u16"
  i32 : IsNumericName "i32"
  u32 : IsNumericName "u32"
  i64 : IsNumericName "i64"
  u64 : IsNumericName "u64"

-- A type that is numeric below its arrays and references.
pub data IsNumeric : Ty → Type 0 where
  at_path :
      (segments : List String) (name : String)
      → last_segment segments ≡ ok name
      → IsNumericName name
      → IsNumeric (path segments)
  in_array : (elem : Ty) → IsNumeric elem → IsNumeric (array elem)
  in_reference : (elem : Ty) → IsNumeric elem → IsNumeric (reference elem)

named_name :
    (name known : String) → IsNumericName known → (name == known) ≡ true → IsNumericName name
named_name name known k h = subst IsNumericName (sym ((eq_iff name known).0 h)) k

or_name :
    {others : Bool} (name known : String)
    → IsNumericName known
    → (others ≡ true → IsNumericName name)
    → (others || name == known) ≡ true
    → IsNumericName name
or_name {others} name known k rest h = elim (Bool-cases others) [
  | inl before ↦ rest before
  | inr none_before ↦ named_name name known k (sym (ap (λ b. b || name == known) none_before) ∙ h)
]

pub numeric_name : (name : String) → is_numeric_name name ≡ true → IsNumericName name
unfolding is_numeric_name
numeric_name name h =
    (or_name name "u64" u64 (
        or_name name "i64" i64 (
          or_name name "u32" u32 (
            or_name name "i32" i32 (
              or_name name "u16" u16
                (or_name name "i16" i16 (or_name name "i8" i8 (named_name name "u8" u8))))))))
      h

pub name_numeric : (name : String) → IsNumericName name → is_numeric_name name ≡ true
unfolding is_numeric_name
name_numeric _ u8 = refl
name_numeric _ i8 = refl
name_numeric _ i16 = refl
name_numeric _ u16 = refl
name_numeric _ i32 = refl
name_numeric _ u32 = refl
name_numeric _ i64 = refl
name_numeric _ u64 = refl

verdict :
    (b : Bool) → (elim b [ true ↦ ok accepted | false ↦ ok not_numeric ]) ≡ ok accepted → b ≡ true
verdict true h = refl
verdict false h = cc

at_path_only :
    (segments : List String)
    → field_type_check (path segments) ≡ ok accepted
    → IsNumeric (path segments)
unfolding field_type_check type_checking
at_path_only segments h =
    let (numeric, is_read, taken) =
      >>=-eq-ok (type_checking segments)
        (λ numeric. elim numeric [ true ↦ ok accepted | false ↦ ok not_numeric ]) h in
    let (name, found, known) =
      >>=-eq-ok (last_segment segments) (λ name. ok (is_numeric_name name)) is_read in
    let yes : numeric ≡ true = verdict numeric taken in
    at_path segments name found (numeric_name name cc)

accepts : (ty : Ty) → field_type_check ty ≡ ok accepted → IsNumeric ty
unfolding field_type_check
accepts (path segments) h = at_path_only segments h
accepts (array elem) h = in_array elem (accepts elem h)
accepts (reference elem) h = in_reference elem (accepts elem h)
accepts other h = cc

accepted_by : (ty : Ty) → IsNumeric ty → field_type_check ty ≡ ok accepted
unfolding field_type_check type_checking
accepted_by (path _) (at_path segments name found known) = rw (found, name_numeric name known) refl
accepted_by (array _) (in_array elem h) = accepted_by elem h
accepted_by (reference _) (in_reference elem h) = accepted_by elem h
accepted_by other h = elim h [ ]

-- The check of a field accepts exactly the types that are numeric below their arrays and references.
field_type_check-accepted_iff : (ty : Ty) → (field_type_check ty ≡ ok accepted) ↔ IsNumeric ty
field_type_check-accepted_iff ty = (accepts ty, accepted_by ty)

pub data AllNumeric : List (String × Ty) → Type 0 where
  no_field : AllNumeric []
  next :
      (ident : String) (ty : Ty) (fields : List (String × Ty))
      → IsNumeric ty
      → AllNumeric fields
      → AllNumeric ((ident, ty) ∷ fields)

-- The items that the macro expands to `new`, with the types that it asserts to be accessible: a
-- structure whose named fields are numeric, a structure without fields, and any enumeration or union.
pub data IsDerivable : Item → List Ty → Type 0 where
  of_named :
      (fields : List (String × Ty))
      → AllNumeric fields
      → IsDerivable (struct (named fields)) (map (λ f. f.1) fields)
  of_unnamed : IsDerivable (struct (unnamed [])) []
  of_unit : IsDerivable (struct unit) []
  of_enumeration : IsDerivable enumeration []
  of_union : IsDerivable union []

field_verdict :
    (result : FieldCheck) (rest : Outcome FieldCheck)
    → continued (λ r. r) rest result ≡ ok accepted
    → (result ≡ accepted) × (rest ≡ ok accepted)
field_verdict accepted rest h = (refl, h)
field_verdict not_numeric rest h = cc
field_verdict not_validate rest h = cc

all_accepted : (fields : List (String × Ty)) → check_fields fields ≡ ok accepted → AllNumeric fields
unfolding check_fields
all_accepted [] h = no_field
all_accepted ((ident, ty) ∷ fields) h =
    let (result, checked, taken) =
      >>=-eq-ok (field_type_check ty) (continued (λ r. r) (check_fields fields)) h in
    let (passed, others) = field_verdict result (check_fields fields) taken in
    next ident ty fields (accepts ty (checked ∙ ap ok passed)) (all_accepted fields others)

accepted_all : (fields : List (String × Ty)) → AllNumeric fields → check_fields fields ≡ ok accepted
unfolding check_fields
accepted_all [] h = refl
accepted_all ((_, _) ∷ _) (next ident ty fields p h) = rw (accepted_by ty p) (accepted_all fields h)

item_verdict :
    (result : FieldCheck) (assertions tys : List Ty)
    → continued compile_error (ok (generated assertions)) result ≡ ok (generated tys)
    → (result ≡ accepted) × (assertions ≡ tys)
item_verdict accepted assertions tys h = (refl, cc)
item_verdict not_numeric assertions tys h = cc
item_verdict not_validate assertions tys h = cc

named_derived :
    (fields : List (String × Ty)) (tys : List Ty)
    → ensure_numberic (struct (named fields)) ≡ ok (generated tys)
    → IsDerivable (struct (named fields)) tys
unfolding ensure_numberic check_item tokens
named_derived fields tys h =
    let (result, checked, taken) =
      >>=-eq-ok (check_fields fields)
        (continued compile_error (ok (generated (map (λ f. f.1) fields)))) h in
    let (passed, same) = item_verdict result (map (λ f. f.1) fields) tys taken in
    subst (IsDerivable (struct (named fields))) same
      (of_named fields (all_accepted fields (checked ∙ ap ok passed)))

generated_injective :
    {xs ys : List Ty}
    → ◌≡◌ {A = Outcome Expansion} (ok (generated xs)) (ok (generated ys))
    → xs ≡ ys
generated_injective h = cc

derived :
    (item : Item) (tys : List Ty) → ensure_numberic item ≡ ok (generated tys) → IsDerivable item tys
unfolding ensure_numberic check_item tokens
derived (struct (named fields)) tys h = named_derived fields tys h
derived (struct (unnamed [])) tys h =
    subst (IsDerivable (struct (unnamed []))) (generated_injective h) of_unnamed
derived (struct (unnamed (ty ∷ tys))) types h = cc
derived (struct unit) tys h = subst (IsDerivable (struct unit)) (generated_injective h) of_unit
derived enumeration tys h = subst (IsDerivable enumeration) (generated_injective h) of_enumeration
derived union tys h = subst (IsDerivable union) (generated_injective h) of_union

derives :
    (item : Item) (tys : List Ty) → IsDerivable item tys → ensure_numberic item ≡ ok (generated tys)
unfolding ensure_numberic check_item tokens
derives _ _ (of_named fields h) = rw (accepted_all fields h) refl
derives _ _ of_unnamed = refl
derives _ _ of_unit = refl
derives _ _ of_enumeration = refl
derives _ _ of_union = refl

-- The macro expands to `new` for exactly these items: structures whose named fields are all numeric
-- below arrays and references, structures without fields, and every enumeration and union. The
-- assertions are the types of the named fields, in their order.
pub ensure_numberic-generated_iff :
    (item : Item) (tys : List Ty)
    → (ensure_numberic item ≡ ok (generated tys)) ↔ IsDerivable item tys
ensure_numberic-generated_iff item tys = (derived item tys, derives item tys)
