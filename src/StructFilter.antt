-- ===== src/StructFilter.antt =====
-- The derive macro of struct_filter/src/lib.rs. A parsed type keeps what the macro looks at: the
-- segments of a path, the element of an array or of a reference, and `other` for the rest.
pub mod Laws
pub mod Access
use linux_kernel_development.Prelude.{
  ℕ, ◌++◌, Option, none, some, List, [], ◌∷◌, map, Bool, true, false, ◌||◌,
}
use linux_kernel_development.Prelude.{Outcome, ok, panics, ◌>>=◌, unwrap_none}
use Prim.Native.String.{String}
use text.Mathlib.Text.{◌==◌}

pub data Ty : Type 0 where
  path : List String → Ty
  array : Ty → Ty
  reference : Ty → Ty
  other : Ty

-- `segments.last().unwrap()`.
pub last_segment : List String → Outcome String
last_segment [] = panics unwrap_none
last_segment (segment ∷ []) = ok segment
last_segment (segment ∷ next ∷ segments) = last_segment (next ∷ segments)

-- The `match` of `type_checking`.
pub is_numeric_name : String → Bool
is_numeric_name name =
    name == "u8"
    || name == "i8"
    || name == "i16"
    || name == "u16"
    || name == "i32"
    || name == "u32"
    || name == "i64"
    || name == "u64"

pub type_checking : List String → Outcome Bool
type_checking segments = do name ← last_segment segments; ok (is_numeric_name name)

-- `Ok(())` and the two errors.
pub data FieldCheck : Type 0 where
  accepted not_numeric not_validate : FieldCheck

pub field_type_check : Ty → Outcome FieldCheck
field_type_check (path segments) = do
  numeric ← type_checking segments
  elim numeric [ true ↦ ok accepted | false ↦ ok not_numeric ]
field_type_check (array elem) = field_type_check elem
field_type_check (reference elem) = field_type_check elem
field_type_check other = ok not_validate

pub data Fields : Type 0 where
  named : List (String × Ty) → Fields
  unnamed : List Ty → Fields
  unit : Fields

-- `syn::Data`.
pub data Item : Type 0 where
  struct : Fields → Item
  enumeration : Item
  union : Item

-- What the macro expands to: an error, or `new` with a `direct_packet_access_ok` for each type.
pub data Expansion : Type 0 where
  compile_error : FieldCheck → Expansion
  generated : List Ty → Expansion

-- What follows a check, unless its error is returned.
abbrev pub continued {ℓ} : {A : Type ℓ} → (FieldCheck → A) → Outcome A → FieldCheck → Outcome A
continued refuse rest accepted = rest
continued refuse rest not_numeric = ok (refuse not_numeric)
continued refuse rest not_validate = ok (refuse not_validate)

-- The first loop: the first field that is refused ends it.
pub check_fields : List (String × Ty) → Outcome FieldCheck
check_fields [] = ok accepted
check_fields ((ident, ty) ∷ fields) = do
  result ← field_type_check ty
  continued (λ r. r) (check_fields fields) result

pub check_item : Item → Outcome FieldCheck
check_item (struct (named fields)) = check_fields fields
check_item (struct (unnamed tys)) = ok accepted
check_item (struct unit) = ok accepted
check_item enumeration = ok accepted
check_item union = ok accepted

-- The second loop: `field.ident.as_ref().unwrap()` needs a name.
pub tokens : Item → Outcome (List Ty)
tokens (struct (named fields)) = ok (map (λ f. f.1) fields)
tokens (struct (unnamed [])) = ok []
tokens (struct (unnamed (ty ∷ tys))) = panics unwrap_none
tokens (struct unit) = ok []
tokens enumeration = ok []
tokens union = ok []

pub ensure_numberic : Item → Outcome Expansion
ensure_numberic item = do
  result ← check_item item
  continued compile_error (tokens item >>= λ tys. ok (generated tys)) result

-- An attribute of a static, its text as bytes.
pub data Attribute : Type 0 where
  link_section : List ℕ → Attribute
  used : Attribute
  written : List ℕ → Attribute

pub record ItemStatic : Type 0 where
  pub attrs : List Attribute
  pub declaration : List ℕ

abbrev collect : List (List ℕ) → List ℕ
collect [] = []
collect (text ∷ texts) = text ++ collect texts

-- `entry_link`: the tokens of its argument, run together, name the section of the static.
unfoldable entry_link : List (List ℕ) → ItemStatic → ItemStatic
entry_link attr ast =
    let link_para = collect attr in
    record {
      attrs = ast.attrs ++ link_section link_para ∷ used ∷ [];
      declaration = ast.declaration;
    }
