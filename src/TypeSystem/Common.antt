-- ===== src/TypeSystem/Common.antt =====
-- ArithmeticTypes.cpp: IntegralType::CommonWith, beside the usual arithmetic conversions of
-- [expr.arith.conv].
use ecpps.TypeSystem.{
  Signedness, signed, unsigned, TypeKind, IntegralType, TypeBase, integral, void_type, pointer_type,
  reference_type, kind_value, int, g_int, same_sign, is_integral, width, rank_integer,
  common_integral, common_with, compare_to, traits,
}
use ecpps.TypeSystem.Compare.{compare_as-other}
use ecpps.TypeSystem.Kinds.{is_integral-all}
use ecpps.Common.{
  ◌≤◌, ◌<◌, ◌≡◌, refl, ap, ◌∙◌, ◌⊎◌, ◌↔◌, inl, inr, Bool, true, false, Bool-cases, none, some, ltb,
  leb, leb→le, if◌then◌else◌, arith,
}
use ecpps.TypeSystem.Sizes.{is_bool, width-kind, rank-kind, kind_size_mono}

wider :
    (a b : IntegralType)
    → is_bool a.class ≡ false
    → is_bool b.class ≡ false
    → kind_value a.kind ≤ kind_value b.kind
    → width a ≤ width b
wider a b no_a no_b h =
    omega (arith, width-kind a no_a, width-kind b no_b, kind_size_mono a.kind b.kind h)

opposite :
    (a b : Signedness)
    → same_sign a b ≡ false
    → same_sign a unsigned ≡ true
    → same_sign a signed ≡ false
opposite signed b h e = absurd (ground arith)
opposite unsigned b h e = refl

opposite' : (a b : Signedness) → same_sign a unsigned ≡ false → same_sign a signed ≡ true
opposite' signed b e = refl
opposite' unsigned b e = absurd (ground arith)

-- The choice between an unsigned type and a signed one.
abbrev pub choose : IntegralType → IntegralType → IntegralType
choose u s =
    if ltb (kind_value s.kind) (kind_value u.kind)
    then u
    else if leb (width u) (width s)
    then s
    else u

choose_wider :
    (u s : IntegralType)
    → is_bool u.class ≡ false
    → is_bool s.class ≡ false
    → ((choose u s ≡ u) × (width s ≤ width u)) ⊎ ((choose u s ≡ s) × (width u ≤ width s))
choose_wider u s no_u no_s = elim (Bool-cases (ltb (kind_value s.kind) (kind_value u.kind))) [
  | inl e ↦ rw e (inl (refl, wider s u no_s no_u (ground arith)))
  | inr e ↦ elim (Bool-cases (leb (width u) (width s))) [
    | inl f ↦ rw (e, f) (inr (refl, ground arith))
    | inr f ↦ rw (e, f) (inl (refl, ground arith))
  ]
]

-- One of the two operands is chosen, and it is the wider one.
abbrev IsWider : IntegralType → IntegralType → IntegralType → Type 0
IsWider a b c = ((c ≡ a) × (width b ≤ width a)) ⊎ ((c ≡ b) × (width a ≤ width b))

common_wider :
    (a b : IntegralType)
    → is_bool a.class ≡ false
    → is_bool b.class ≡ false
    → IsWider a b (common_integral a b)
common_wider a b no_a no_b = elim (Bool-cases (same_sign a.sign b.sign)) [
  | inl e ↦ elim (Bool-cases (ltb (rank_integer b) (rank_integer a))) [
    | inl f ↦ rw (e, f) (inl (refl, wider b a no_b no_a (ground (arith, rank-kind a, rank-kind b))))
    | inr f ↦ rw (e, f) (inr (refl, wider a b no_a no_b (ground (arith, rank-kind a, rank-kind b))))
  ]
  | inr e ↦ elim (Bool-cases (same_sign a.sign unsigned)) [
    | inl u ↦ rw (e, u, opposite a.sign b.sign e u) (choose_wider a b no_a no_b)
    | inr s ↦
        let sw = elim (choose_wider b a no_b no_a) as (λ _. IsWider a b (choose b a)) [
          | inl h ↦ inr h
          | inr h ↦ inl h
        ] in
        rw (e, s, opposite' a.sign b.sign s) sw
  ]
]

common_with-other :
    (this o : IntegralType)
    → common_with false this (some (integral o)) ≡ some (integral (common_integral this o))
unfolding common_with
common_with-other this o = rw (is_integral-all o)

-- Of two integral types but bool, CommonWith gives one, no narrower than either, whether or not they
-- are the same object.
pub common_with-wider :
    (same : Bool) (this o : IntegralType)
    → (same ≡ true → o ≡ this)
    → is_bool this.class ≡ false
    → is_bool o.class ≡ false
    → (c : IntegralType) × (common_with same this (some (integral o)) ≡ some (integral c))
      × ((c ≡ this) ⊎ (c ≡ o))
      × (width this ≤ width c)
      × (width o ≤ width c)
unfolding common_with
common_with-wider true this o is_o no_this no_o =
    (this, refl, inl refl, omega arith, rw (is_o refl) (omega arith))
common_with-wider false this o is_o no_this no_o =
    let found = common_with-other this o in
    elim (common_wider this o no_this no_o) [
      | inl (e, h) ↦ (this, found ∙ ap (λ c. some (integral c)) e, inl refl, omega arith, h)
      | inr (e, h) ↦ (o, found ∙ ap (λ c. some (integral c)) e, inr refl, h, omega arith)
    ]

not_integral :
    (this : IntegralType) (other : TypeBase)
    → is_integral other ≡ false
    → common_with false this (some other) ≡ none
unfolding common_with compare_to
not_integral this other h = rw (h, compare_as-other this.class this other h)

-- There is no common type exactly with a type that is not integral.
pub common_with-none :
    (this : IntegralType) (other : TypeBase)
    → (common_with false this (some other) ≡ none) ↔ (is_integral other ≡ false)
unfolding common_with compare_to is_integral traits
common_with-none this (integral o) = (
  λ h. absurd (ground (arith, common_with-other this o)),
  λ h. absurd (ground (arith, is_integral-all o)),
)
common_with-none this (void_type q) = (λ _. refl, not_integral this (void_type q))
common_with-none this (pointer_type t q) = (λ _. refl, not_integral this (pointer_type t q))
common_with-none this (reference_type t r) = (λ _. refl, not_integral this (reference_type t r))

-- The integral promotion of [conv.prom]: below the rank of int to int, which has all the values.
abbrev pub promotion : IntegralType → IntegralType
promotion t = if ltb (rank_integer t) 3 then g_int else t

-- [expr.arith.conv] for an unsigned type and a signed one: the sign and the kind of the common type.
abbrev pub usual_mixed : IntegralType → IntegralType → Signedness × TypeKind
usual_mixed u s =
    if leb (rank_integer s) (rank_integer u)
    then (unsigned, u.kind)
    else if ltb (width u) (width s)
    then (signed, s.kind)
    else (unsigned, s.kind)

-- [expr.arith.conv]: both operands are promoted first.
abbrev pub usual_promoted : IntegralType → IntegralType → Signedness × TypeKind
usual_promoted a b =
    if same_sign a.sign b.sign
    then if leb (rank_integer b) (rank_integer a) then (a.sign, a.kind) else (b.sign, b.kind)
    else if same_sign a.sign unsigned
    then usual_mixed a b
    else usual_mixed b a

abbrev pub usual : IntegralType → IntegralType → Signedness × TypeKind
usual a b = usual_promoted (promotion a) (promotion b)

usual-mixed :
    (u s : IntegralType)
    → u.sign ≡ unsigned
    → s.sign ≡ signed
    → 3 ≤ rank_integer u
    → 3 ≤ rank_integer s
    → usual u s ≡ usual_mixed u s
usual-mixed u s is_u is_s big_u big_s =
    let no_u : ltb (rank_integer u) 3 ≡ false = ground arith in
    let no_s : ltb (rank_integer s) 3 ≡ false = ground arith in rw (no_u, no_s, is_u, is_s) refl

usual-small :
    (u s : IntegralType) → rank_integer u < 3 → rank_integer s < 3 → usual u s ≡ (signed, int)
usual-small u s small_u small_s =
    let yes_u : ltb (rank_integer u) 3 ≡ true = ground arith in
    let yes_s : ltb (rank_integer s) 3 ≡ true = ground arith in
    rw (yes_u, yes_s) (unfold rank_integer in refl)

agrees :
    (u s : IntegralType)
    → u.sign ≡ unsigned
    → s.sign ≡ signed
    → is_bool u.class ≡ false
    → is_bool s.class ≡ false
    → (rank_integer s < rank_integer u) ⊎ (width u < width s)
    → ((choose u s).sign ≡ (usual_mixed u s).0) × ((choose u s).kind ≡ (usual_mixed u s).1)
agrees u s is_u is_s no_u no_s (inl more) =
    let a : ltb (kind_value s.kind) (kind_value u.kind) ≡ true =
      ground (arith, rank-kind u, rank-kind s) in
    let b : leb (rank_integer s) (rank_integer u) ≡ true = ground arith in rw (a, b) (is_u, refl)
agrees u s is_u is_s no_u no_s (inr wide) =
    elim (Bool-cases (leb (kind_value s.kind) (kind_value u.kind))) [
      | inl e ↦ absurd (omega (arith, wider s u no_s no_u (leb→le _ _ e)))
      | inr e ↦
          let a : ltb (kind_value s.kind) (kind_value u.kind) ≡ false = ground arith in
          let b : leb (rank_integer s) (rank_integer u) ≡ false =
            ground (arith, rank-kind u, rank-kind s) in
          let c : leb (width u) (width s) ≡ true = ground arith in
          let d : ltb (width u) (width s) ≡ true = ground arith in rw (a, b, c, d) (is_s, refl)
    ]

differs_from_usual :
    (u s : IntegralType)
    → s.sign ≡ signed
    → is_bool u.class ≡ false
    → is_bool s.class ≡ false
    → rank_integer u ≤ rank_integer s
    → width s ≤ width u
    → ((choose u s).sign ≡ signed) × ((usual_mixed u s).0 ≡ unsigned)
differs_from_usual u s is_s no_u no_s lo hi =
    let order : kind_value u.kind ≤ kind_value s.kind = omega (arith, rank-kind u, rank-kind s) in
    let a : ltb (kind_value s.kind) (kind_value u.kind) ≡ false = ground arith in
    let c : leb (width u) (width s) ≡ true = ground (arith, wider u s no_u no_s order) in
    let d : ltb (width u) (width s) ≡ false = ground arith in
    elim (Bool-cases (leb (rank_integer s) (rank_integer u))) [
      | inl e ↦ rw (a, c, e) (is_s, refl)
      | inr e ↦ rw (a, c, d, e) (is_s, refl)
    ]

-- With an unsigned and a signed type, neither bool, CommonWith gives the same in either order. From
-- the rank of int on, it is what [expr.arith.conv] says where the unsigned type has the greater rank
-- or the signed type the greater width, and a signed type in place of an unsigned one where neither
-- holds; where both ranks are below that of int, it is below it too, in place of int.
pub common_with-usual :
    (u s : IntegralType)
    → u.sign ≡ unsigned
    → s.sign ≡ signed
    → is_bool u.class ≡ false
    → is_bool s.class ≡ false
    → (c : IntegralType) × (common_with false u (some (integral s)) ≡ some (integral c))
      × (common_with false s (some (integral u)) ≡ some (integral c))
      × (3 ≤ rank_integer u
          → 3 ≤ rank_integer s
          → (rank_integer s < rank_integer u) ⊎ (width u < width s)
          → (c.sign ≡ (usual u s).0) × (c.kind ≡ (usual u s).1))
      × (3 ≤ rank_integer u
          → rank_integer u ≤ rank_integer s
          → width s ≤ width u
          → (c.sign ≡ signed) × ((usual u s).0 ≡ unsigned))
      × (rank_integer u < 3
          → rank_integer s < 3
          → (rank_integer c < 3) × (usual u s ≡ (signed, int)))
common_with-usual u s is_u is_s no_u no_s = (
  choose u s,
  common_with-other u s ∙ ap (λ c. some (integral c)) (rw (is_u, is_s)),
  common_with-other s u ∙ ap (λ c. some (integral c)) (rw (is_u, is_s)),
  λ big_u big_s cases.
      rw (usual-mixed u s is_u is_s big_u big_s) (agrees u s is_u is_s no_u no_s cases),
  λ big_u order widths.
      rw (usual-mixed u s is_u is_s big_u (omega arith))
        (differs_from_usual u s is_s no_u no_s order widths),
  λ small_u small_s. (
    elim (choose_wider u s no_u no_s) [ inl (e, _) ↦ rw e small_u | inr (e, _) ↦ rw e small_s ],
    usual-small u s small_u small_s,
  ),
)
