-- ===== src/TypeSystem/Kinds.antt =====
-- ArithmeticTypes.h: traits and enumerators of the integral types.
use ecpps.TypeSystem.{
  Signedness, signed, unsigned, TypeKind, char, short, int, long, long_long, IntegralClass,
  integral_type, character_type, boolean_type, IntegralType, TypeBase, integral, void_type,
  pointer_type, reference_type, kind_value, same_sign, same_kind, is_boolean, is_integral, traits,
  has, is_boolean_trait, is_integral_trait, integral_traits,
}
use ecpps.Common.{zero, suc, sym, ◌∙◌, ℕ, ◌≡◌, refl, ap, ◌↔◌, true, false, ==_iff, arith}

-- The invariant of the constructors: a character type is a char, the plain one signed, and a bool is
-- an unsigned char.
abbrev pub IsMadeClass : IntegralClass → Signedness → TypeKind → Type 0
IsMadeClass integral_type s k = Unit
IsMadeClass (character_type true) s k = (s ≡ signed) × (k ≡ char)
IsMadeClass (character_type false) s k = k ≡ char
IsMadeClass boolean_type s k = (s ≡ unsigned) × (k ≡ char)

abbrev pub IsMade : IntegralType → Type 0
IsMade t = IsMadeClass t.class t.sign t.kind

no_class_is_boolean : (c : IntegralClass) → has is_boolean_trait (integral_traits c) ≡ false
no_class_is_boolean integral_type = refl
no_class_is_boolean (character_type u) = refl
no_class_is_boolean boolean_type = refl

each_class_is_integral : (c : IntegralClass) → has is_integral_trait (integral_traits c) ≡ true
each_class_is_integral integral_type = refl
each_class_is_integral (character_type u) = refl
each_class_is_integral boolean_type = refl

-- No type object has the trait Boolean.
pub is_boolean-none : (t : TypeBase) → is_boolean t ≡ false
unfolding is_boolean traits
is_boolean-none (integral t) = no_class_is_boolean t.class
is_boolean-none (void_type q) = refl
is_boolean-none (pointer_type t q) = refl
is_boolean-none (reference_type t r) = refl

pub is_integral-all : (t : IntegralType) → is_integral (integral t) ≡ true
unfolding is_integral traits
is_integral-all t = each_class_is_integral t.class

-- The enumerators with their values
kind_of : ℕ → TypeKind
kind_of zero = char
kind_of (suc zero) = short
kind_of (suc (suc zero)) = int
kind_of (suc (suc (suc zero))) = long
kind_of (suc (suc (suc (suc n)))) = long_long

kind_of-value : (k : TypeKind) → kind_of (kind_value k) ≡ k
unfolding kind_of
kind_of-value char = refl
kind_of-value short = refl
kind_of-value int = refl
kind_of-value long = refl
kind_of-value long_long = refl

pub same_kind_iff : (a b : TypeKind) → (same_kind a b ≡ true) ↔ (a ≡ b)
same_kind_iff a b = (
  λ h. sym (kind_of-value a) ∙ ap kind_of ((==_iff _ _).0 h) ∙ kind_of-value b,
  λ e. (==_iff _ _).1 (ap kind_value e),
)

pub same_sign_iff : (a b : Signedness) → (same_sign a b ≡ true) ↔ (a ≡ b)
same_sign_iff signed signed = (λ _. refl, λ _. refl)
same_sign_iff signed unsigned =
    (λ h. absurd (ground arith), λ e. ap (λ s. same_sign signed s) (sym e))
same_sign_iff unsigned signed =
    (λ h. absurd (ground arith), λ e. ap (λ s. same_sign unsigned s) (sym e))
same_sign_iff unsigned unsigned = (λ _. refl, λ _. refl)
