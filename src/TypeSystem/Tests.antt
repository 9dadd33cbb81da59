-- ===== src/TypeSystem/Tests.antt =====
-- Conversions of the fundamental types.
use ecpps.TypeSystem.{
  signed, unsigned, integral, void_type, IntegralType, plain_char, make_character, make_boolean,
  int, unqualified, g_int, g_unsigned_int, same_sign, is_integral, width, rank_integer,
  promote_integer, common_with,
}
use ecpps.TypeSystem.Compare.{promote_integer_lem}
use ecpps.TypeSystem.Common.{usual, common_with-wider, common_with-none, common_with-usual}
use ecpps.Common.{◌≤◌, ◌<◌, ◌≡◌, refl, ◌⊎◌, ◌↔◌, true, false, some, none, arith}

abbrev plain : IntegralType
plain = make_character plain_char unqualified

abbrev bool : IntegralType
bool = make_boolean unqualified

-- A bool has no trait of its own, so it promotes to unsigned int.
bool_promotes : promote_integer bool ≡ g_unsigned_int
unfolding promote_integer
bool_promotes = refl

promote_integer_lem_example :
    (3 ≤ rank_integer (promote_integer plain))
    × (same_sign (promote_integer plain).sign signed ≡ true)
    × (width plain ≤ width (promote_integer plain))
    × (3 ≤ rank_integer plain → promote_integer plain ≡ plain)
promote_integer_lem_example = promote_integer_lem plain

common_with-wider_example :
    (c : IntegralType) × (common_with false plain (some (integral g_int)) ≡ some (integral c))
    × ((c ≡ plain) ⊎ (c ≡ g_int))
    × (width plain ≤ width c)
    × (width g_int ≤ width c)
common_with-wider_example =
    common_with-wider false plain g_int (λ h. absurd (ground arith)) refl refl

common_with-none_example :
    (common_with false g_int (some (void_type unqualified)) ≡ none)
    ↔ (is_integral (void_type unqualified) ≡ false)
common_with-none_example = common_with-none g_int (void_type unqualified)

-- int and unsigned int have the common type int.
common_with-usual_example :
    (c : IntegralType) × (common_with false g_unsigned_int (some (integral g_int))
      ≡ some (integral c))
    × (common_with false g_int (some (integral g_unsigned_int)) ≡ some (integral c))
    × (3 ≤ rank_integer g_unsigned_int
        → 3 ≤ rank_integer g_int
        → (rank_integer g_int < rank_integer g_unsigned_int) ⊎ (width g_unsigned_int < width g_int)
        → (c.sign ≡ (usual g_unsigned_int g_int).0) × (c.kind ≡ (usual g_unsigned_int g_int).1))
    × (3 ≤ rank_integer g_unsigned_int
        → rank_integer g_unsigned_int ≤ rank_integer g_int
        → width g_int ≤ width g_unsigned_int
        → (c.sign ≡ signed) × ((usual g_unsigned_int g_int).0 ≡ unsigned))
    × (rank_integer g_unsigned_int < 3
        → rank_integer g_int < 3
        → (rank_integer c < 3) × (usual g_unsigned_int g_int ≡ (signed, int)))
common_with-usual_example = common_with-usual g_unsigned_int g_int refl refl refl refl
