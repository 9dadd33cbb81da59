-- ===== src/TypeSystem/Sizes.antt =====
-- ArithmeticTypes.h: the sizes and ranks of the kinds of integral types.
use ecpps.TypeSystem.{
  Signedness, TypeKind, char, short, int, long, long_long, IntegralClass, integral_type,
  character_type, boolean_type, Qualifiers, IntegralType, kind_value, size, width, rank_integer,
}
use ecpps.Common.{
  ℕ, suc, ◌*◌, ◌≤◌, ◌≡◌, refl, ap, Bool, true, false, leb, ◌==◌, if◌then◌else◌, arith,
}

-- The size in bytes of a kind, and the width of each type but bool.
abbrev pub kind_size : TypeKind → ℕ
kind_size char = 1
kind_size short = 2
kind_size int = 4
kind_size long = 4
kind_size long_long = 8

abbrev pub is_bool : IntegralClass → Bool
is_bool boolean_type = true
is_bool _ = false

size-kind : (t : IntegralType) → size t ≡ kind_size t.kind
unfolding size
size-kind t = go t.class t.sign t.kind t.qualifiers
  where
    go :
        (c : IntegralClass) (s : Signedness) (k : TypeKind) (q : Qualifiers)
        → size (record { class = c; sign = s; kind = k; qualifiers = q }) ≡ kind_size k
    go c s char q = refl
    go c s short q = refl
    go c s int q = refl
    go c s long q = refl
    go c s long_long q = refl

pub width-kind : (t : IntegralType) → is_bool t.class ≡ false → width t ≡ kind_size t.kind * 8
unfolding width
width-kind t h = go t.class t.sign t.kind t.qualifiers h
  where
    go :
        (c : IntegralClass) (s : Signedness) (k : TypeKind) (q : Qualifiers)
        → is_bool c ≡ false
        → width (record { class = c; sign = s; kind = k; qualifiers = q }) ≡ kind_size k * 8
    go integral_type s k q h =
        ap (λ n. n * 8)
          (size-kind (record { class = integral_type; sign = s; kind = k; qualifiers = q }))
    go (character_type u) s k q h =
        ap (λ n. n * 8)
          (size-kind (record { class = character_type u; sign = s; kind = k; qualifiers = q }))
    go boolean_type s k q h = absurd (ground arith)

pub rank-kind : (t : IntegralType) → rank_integer t ≡ suc (kind_value t.kind)
unfolding rank_integer
rank-kind t = go t.class t.sign t.kind t.qualifiers
  where
    go :
        (c : IntegralClass) (s : Signedness) (k : TypeKind) (q : Qualifiers)
        → rank_integer (record { class = c; sign = s; kind = k; qualifiers = q })
          ≡ suc (kind_value k)
    go c s char q = refl
    go c s short q = refl
    go c s int q = refl
    go c s long q = refl
    go c s long_long q = refl

-- The size by the enumerator's value
size_at : ℕ → ℕ
size_at n = if n == 0 then 1 else if n == 1 then 2 else if leb n 3 then 4 else 8

size_at-kind : (k : TypeKind) → size_at (kind_value k) ≡ kind_size k
unfolding size_at
size_at-kind char = refl
size_at-kind short = refl
size_at-kind int = refl
size_at-kind long = refl
size_at-kind long_long = refl

size_at_mono : (a b : ℕ) → a ≤ b → size_at a ≤ size_at b
unfolding size_at
size_at_mono a b h = ground arith

-- A greater kind is at least as large.
pub kind_size_mono : (a b : TypeKind) → kind_value a ≤ kind_value b → kind_size a ≤ kind_size b
kind_size_mono a b h =
    omega (arith, size_at-kind a, size_at-kind b, size_at_mono (kind_value a) (kind_value b) h)
