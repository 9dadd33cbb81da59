-- ===== src/TypeSystem/Compare.antt =====
-- ArithmeticTypes.cpp: PromoteInteger and the two CompareTo.
use ecpps.TypeSystem.{
  Signedness, signed, TypeKind, char, short, int, long, long_long, IntegralClass, integral_type,
  character_type, boolean_type, Qualifiers, IntegralType, TypeBase, integral, void_type,
  pointer_type, reference_type, same_sign, is_boolean, is_integral, is_character, size, width,
  rank_integer, promote_integer, traits, integral_compare_to, character_compare_to, compare_as,
}
use ecpps.Common.{
  Bool-cases, inl, inr, ◌≤◌, ◌<◌, ◌≡◌, refl, ◌⊎◌, true, false, none, ltb, ==_iff, arith,
}
use ecpps.TypeSystem.Kinds.{is_boolean-none, is_integral-all, same_sign_iff}

-- By the size and the rank of a kind, promotion goes to int below the rank of int.
small_or_kept : (t : IntegralType) → (rank_integer t < 3) × (width t ≤ 16) ⊎ (3 ≤ rank_integer t)
unfolding rank_integer width size
small_or_kept t = go t.class t.sign t.kind t.qualifiers
  where
    go :
        (c : IntegralClass) (s : Signedness) (k : TypeKind) (q : Qualifiers)
        → (rank_integer (record { class = c; sign = s; kind = k; qualifiers = q }) < 3)
            × (width (record { class = c; sign = s; kind = k; qualifiers = q }) ≤ 16)
          ⊎ (3 ≤ rank_integer (record { class = c; sign = s; kind = k; qualifiers = q }))
    go integral_type s char q = inl (omega arith, omega arith)
    go (character_type u) s char q = inl (omega arith, omega arith)
    go boolean_type s char q = inl (omega arith, omega arith)
    go integral_type s short q = inl (omega arith, omega arith)
    go (character_type u) s short q = inl (omega arith, omega arith)
    go boolean_type s short q = inl (omega arith, omega arith)
    go c s int q = inr (omega arith)
    go c s long q = inr (omega arith)
    go c s long_long q = inr (omega arith)

-- Integral promotion gives a type of at least the rank of int, of the same sign and as wide; from
-- the rank of int on it changes nothing.
pub promote_integer_lem :
    (t : IntegralType)
    → (3 ≤ rank_integer (promote_integer t))
      × (same_sign (promote_integer t).sign t.sign ≡ true)
      × (width t ≤ width (promote_integer t))
      × (3 ≤ rank_integer t → promote_integer t ≡ t)
unfolding promote_integer
promote_integer_lem t = elim (small_or_kept t) [
  | inl (small, narrow) ↦
      let below : ltb (rank_integer t) 3 ≡ true = ground arith in
      elim (Bool-cases (same_sign t.sign signed)) [
        | inl e ↦
            let is_signed : t.sign ≡ signed = (same_sign_iff _ _).0 e in
            rw (is_boolean-none (integral t), below, e)
              (
                unfold rank_integer in omega arith,
                rw is_signed,
                unfold width in unfold size in omega (arith, narrow),
                λ h. absurd (omega (arith, small)),
              )
        | inr e ↦
            rw (is_boolean-none (integral t), below, e)
              (
                unfold rank_integer in omega arith,
                ground arith,
                unfold width in unfold size in omega (arith, narrow),
                λ h. absurd (omega (arith, small)),
              )
      ]
  | inr kept ↦
      let above : ltb (rank_integer t) 3 ≡ false = ground arith in
      rw (is_boolean-none (integral t), above) (kept, (==_iff _ _).1 refl, omega arith, λ _. refl)
]

pub compare_as-other :
    (c : IntegralClass) (this : IntegralType) (other : TypeBase)
    → is_integral other ≡ false
    → compare_as c this other ≡ none
unfolding compare_as integral_compare_to character_compare_to is_integral is_boolean is_character
    traits
compare_as-other c this (integral o) h = absurd (ground (arith, is_integral-all o))
compare_as-other integral_type this (void_type q) h = refl
compare_as-other boolean_type this (void_type q) h = refl
compare_as-other (character_type u) this (void_type q) h = ground arith
compare_as-other integral_type this (pointer_type t q) h = refl
compare_as-other boolean_type this (pointer_type t q) h = refl
compare_as-other (character_type u) this (pointer_type t q) h = ground arith
compare_as-other integral_type this (reference_type t r) h = refl
compare_as-other boolean_type this (reference_type t r) h = refl
compare_as-other (character_type u) this (reference_type t r) h = ground arith
