-- ===== src/TypeSystem.antt =====
-- compiler/ecpps/src/TypeSystem/ArithmeticTypes.h, ArithmeticTypes.cpp and TypeBase.h: the integral
-- types, their ranks, promotions and conversions. A type object is its dynamic class with its
-- fields, and a null pointer is `none`.
pub mod Common
pub mod Kinds
pub mod Sizes
pub mod Compare
mod Tests
use ecpps.Common.{
  ℕ, ◌*◌, Bool, true, false, not, ◌&&◌, ◌||◌, Option, none, some, List, [], ◌∷◌, ltb, leb, ◌==◌,
  if◌then◌else◌,
}

pub data Signedness : Type 0 where
  signed : Signedness
  unsigned : Signedness

pub data TypeKind : Type 0 where
  char : TypeKind
  short : TypeKind
  int : TypeKind
  long : TypeKind
  long_long : TypeKind

pub data CharacterSign : Type 0 where
  plain_char : CharacterSign
  signed_char : CharacterSign
  unsigned_char : CharacterSign

pub record Qualifiers : Type 0 where
  pub is_const : Bool
  pub is_volatile : Bool

-- The class derived from IntegralType; `character_type` has the field _isUnqualified.
pub data IntegralClass : Type 0 where
  integral_type : IntegralClass
  character_type : Bool → IntegralClass
  boolean_type : IntegralClass

pub record IntegralType : Type 0 where
  pub class : IntegralClass
  pub sign : Signedness
  pub kind : TypeKind
  pub qualifiers : Qualifiers

-- Of the other classes, those that ArithmeticTypes.h and TypeBase.h declare.
pub data TypeBase : Type 0 where
  integral : IntegralType → TypeBase
  void_type : Qualifiers → TypeBase
  pointer_type : TypeBase → Qualifiers → TypeBase
  reference_type : TypeBase → Bool → TypeBase

pub data TypeTrait : Type 0 where
  implicit_lifetime : TypeTrait
  arithmetic : TypeTrait
  integral_trait : TypeTrait
  literal : TypeTrait
  trivially_copyable : TypeTrait
  character : TypeTrait
  incomplete : TypeTrait
  boolean : TypeTrait
  pointer : TypeTrait
  scalar : TypeTrait
  reference : TypeTrait
  object : TypeTrait

-- Those that integral types are given.
pub data ConversionKind : Type 0 where
  integral_promotion : ConversionKind
  integral_conversion : ConversionKind
  boolean_conversion : ConversionKind

-- A ConversionSequence: `none` is not valid.
abbrev pub ConversionSequence : Type 0
ConversionSequence = Option (List ConversionKind)

abbrev pub is_valid : ConversionSequence → Bool
is_valid none = false
is_valid (some kinds) = true

abbrev pub same_as : ConversionSequence → Bool
same_as none = false
same_as (some []) = true
same_as (some (kind ∷ kinds)) = false

-- The values of the enumerations, which tests compare.
abbrev pub sign_value : Signedness → ℕ
sign_value signed = 1
sign_value unsigned = 0

abbrev pub kind_value : TypeKind → ℕ
kind_value char = 0
kind_value short = 1
kind_value int = 2
kind_value long = 3
kind_value long_long = 4

abbrev pub same_sign : Signedness → Signedness → Bool
same_sign a b = sign_value a == sign_value b

abbrev pub same_kind : TypeKind → TypeKind → Bool
same_kind a b = kind_value a == kind_value b

-- The constructors
abbrev pub make_character : CharacterSign → Qualifiers → IntegralType
make_character plain_char q = record {
  class = character_type true;
  sign = signed;
  kind = char;
  qualifiers = q;
}
make_character signed_char q = record {
  class = character_type false;
  sign = signed;
  kind = char;
  qualifiers = q;
}
make_character unsigned_char q = record {
  class = character_type false;
  sign = unsigned;
  kind = char;
  qualifiers = q;
}

abbrev pub make_boolean : Qualifiers → IntegralType
make_boolean q = record { class = boolean_type; sign = unsigned; kind = char; qualifiers = q }

abbrev pub unqualified : Qualifiers
unqualified = record { is_const = false; is_volatile = false }

abbrev pub g_int : IntegralType
g_int = record { class = integral_type; sign = signed; kind = int; qualifiers = unqualified }

abbrev pub g_unsigned_int : IntegralType
g_unsigned_int = record {
  class = integral_type;
  sign = unsigned;
  kind = int;
  qualifiers = unqualified;
}

abbrev pub integral_traits : IntegralClass → List TypeTrait
integral_traits (character_type u) =
    arithmetic ∷ integral_trait ∷ literal ∷ trivially_copyable ∷ implicit_lifetime ∷ scalar
    ∷ character ∷ object ∷ []
integral_traits _ =
    arithmetic ∷ integral_trait ∷ literal ∷ trivially_copyable ∷ implicit_lifetime ∷ scalar ∷ object
    ∷ []

unfoldable pub traits : TypeBase → List TypeTrait
traits (integral t) = integral_traits t.class
traits (void_type q) = incomplete ∷ []
traits (pointer_type t q) =
    scalar ∷ literal ∷ trivially_copyable ∷ implicit_lifetime ∷ pointer ∷ object ∷ []
traits (reference_type t r) = reference ∷ literal ∷ []

abbrev pub is_boolean_trait : TypeTrait → Bool
is_boolean_trait boolean = true
is_boolean_trait _ = false

abbrev pub is_integral_trait : TypeTrait → Bool
is_integral_trait integral_trait = true
is_integral_trait _ = false

abbrev pub is_character_trait : TypeTrait → Bool
is_character_trait character = true
is_character_trait _ = false

-- TypeTraits::Has
abbrev pub has : (TypeTrait → Bool) → List TypeTrait → Bool
has p [] = false
has p (t ∷ ts) = p t || has p ts

unfoldable pub is_boolean : TypeBase → Bool
unfolding traits
is_boolean t = has is_boolean_trait (traits t)

unfoldable pub is_integral : TypeBase → Bool
unfolding traits
is_integral t = has is_integral_trait (traits t)

unfoldable pub is_character : TypeBase → Bool
unfolding traits
is_character t = has is_character_trait (traits t)

unfoldable pub size : IntegralType → ℕ
size t = elim (t.kind) [ char ↦ 1 | short ↦ 2 | int ↦ 4 | long ↦ 4 | long_long ↦ 8 ]

unfoldable pub width : IntegralType → ℕ
unfolding size
width t = elim (t.class) [
  | boolean_type ↦ 1
  | integral_type ↦ size t * 8
  | character_type u ↦ size t * 8
]

unfoldable pub rank_integer : IntegralType → ℕ
rank_integer t = elim (t.kind) [ char ↦ 1 | short ↦ 2 | int ↦ 3 | long ↦ 4 | long_long ↦ 5 ]

unfoldable pub promote_integer : IntegralType → IntegralType
unfolding is_boolean rank_integer
promote_integer t =
    if is_boolean (integral t)
    then g_int
    else if ltb (rank_integer t) 3
    then (if same_sign t.sign signed then g_int else g_unsigned_int)
    else t

-- The conversions of IntegralType::CompareTo from one integral type to another.
abbrev pub integral_sequence : IntegralType → IntegralType → List ConversionKind
integral_sequence this other =
    let promoted = promote_integer other in
    let is_promotion = same_sign promoted.sign this.sign && same_kind promoted.kind this.kind in
    if not (same_sign other.sign this.sign) || not (same_kind other.kind this.kind)
    then (if is_promotion then integral_promotion ∷ [] else integral_conversion ∷ [])
    else []

-- IntegralType::CompareTo; the cast to IntegralType succeeds where the trait is there.
unfoldable pub integral_compare_to : IntegralType → Option TypeBase → ConversionSequence
unfolding is_boolean is_integral promote_integer
integral_compare_to this none = none
integral_compare_to this (some other) =
    if is_boolean other
    then some (boolean_conversion ∷ [])
    else if is_integral other
    then elim other [
      | integral o ↦ some (integral_sequence this o)
      | void_type q ↦ none
      | pointer_type t q ↦ none
      | reference_type t r ↦ none
    ]
    else none

-- The field _isUnqualified, where the object is a CharacterType.
abbrev pub class_is_unqualified : IntegralClass → Bool
class_is_unqualified (character_type u) = u
class_is_unqualified _ = false

abbrev pub is_unqualified : IntegralType → Bool
is_unqualified t = class_is_unqualified t.class

abbrev pub other_is_unqualified : TypeBase → Bool
other_is_unqualified (integral o) = is_unqualified o
other_is_unqualified _ = false

-- CharacterType::CompareTo, and the call of CompareTo by the object's class.
unfoldable pub character_compare_to : IntegralType → TypeBase → ConversionSequence
unfolding integral_compare_to is_character
character_compare_to this other =
    if not (is_unqualified this) || not (is_character other)
    then integral_compare_to this (some other)
    else if other_is_unqualified other
    then some []
    else integral_compare_to this (some other)

unfoldable pub compare_as : IntegralClass → IntegralType → TypeBase → ConversionSequence
unfolding integral_compare_to character_compare_to
compare_as (character_type u) this other = character_compare_to this other
compare_as _ this other = integral_compare_to this (some other)

unfoldable pub compare_to : IntegralType → TypeBase → ConversionSequence
unfolding compare_as
compare_to this other = compare_as this.class this other

-- IntegralType::CommonWith, where `other` is an integral type.
abbrev pub common_integral : IntegralType → IntegralType → IntegralType
common_integral this other =
    let unsigned_type = if same_sign this.sign unsigned then this else other in
    let signed_type = if same_sign this.sign signed then this else other in
    if same_sign this.sign other.sign
    then (if ltb (rank_integer other) (rank_integer this) then this else other)
    else if ltb (kind_value signed_type.kind) (kind_value unsigned_type.kind)
    then unsigned_type
    else if leb (width unsigned_type) (width signed_type)
    then signed_type
    else unsigned_type

-- `same` says whether `other` points to this object. The lines behind the second test of
-- IsIntegral(other) are not reached: the first one has returned for every integral type.
unfoldable pub common_with : Bool → IntegralType → Option TypeBase → Option TypeBase
unfolding is_integral rank_integer width compare_to
common_with same this none = none
common_with same this (some other) =
    if same
    then some (integral this)
    else if is_integral other
    then elim other [
      | integral o ↦ some (integral (common_integral this o))
      | void_type q ↦ none
      | pointer_type t q ↦ none
      | reference_type t r ↦ none
    ]
    else if same_as (compare_to this other)
    then some other
    else none
