-- ===== src/Index/Bounds/Laws.antt =====
-- Boxes as sets of points: what intersection and union mean.
use rnov_modular_db.Base.{
  ◌≡◌, ◌≢◌, refl, sym, ◌∙◌, subst, ◌↔◌, ◌⊎◌, inl, inr, Bool, true, List, [], ◌∷◌, In, All, length,
  ◌==◌, Bool-cases, arith,
}
use rnov_modular_db.Base.Int.{ℤ, ◌≤ℤ◌, leb_ℤ}
use rnov_modular_db.Common.{ok, err, invalid_input}
use rnov_modular_db.Index.Bounds.{
  AxisBounds, axis_intersects, BoundingBox, rank, all_intersect, intersects, axis_union, union_axes,
  union, union_bounds,
}

-- A point lies in a box: it has as many coordinates as the box axes, each between the two bounds.
abbrev pub Inside : List ℤ → List AxisBounds → Type 0
Inside [] [] = Unit
Inside [] (a ∷ us) = ⊥
Inside (x ∷ xs) [] = ⊥
Inside (x ∷ xs) (a ∷ us) = (a.lower ≤ℤ x) × (x ≤ℤ a.upper) × Inside xs us

-- The bounds of an axis are in order, as `AxisBounds::new` makes sure.
abbrev pub IsProper : AxisBounds → Type 0
IsProper a = a.lower ≤ℤ a.upper

leb_iff : (a b : ℤ) → (leb_ℤ a b ≡ true) ↔ (a ≤ℤ b)
leb_iff a b = ground arith

le_trans : (a b c : ℤ) → a ≤ℤ b → b ≤ℤ c → a ≤ℤ c
le_trans a b c h k = omega (arith, h, k)

-- Two proper axes have a value in common exactly if each starts before the other ends.
axis_meet :
    (a b : AxisBounds)
    → IsProper a
    → IsProper b
    → axis_intersects a b ≡ true
    → (x : ℤ) × (a.lower ≤ℤ x) × (x ≤ℤ a.upper) × (b.lower ≤ℤ x) × (x ≤ℤ b.upper)
axis_meet a b p q h = elim (Bool-cases (leb_ℤ a.lower b.lower)) [
  | inl first ↦ (b.lower, ground arith, ground arith, ground arith, q)
  | inr second ↦ (a.lower, ground arith, p, ground arith, ground arith)
]

common_point :
    (us vs : List AxisBounds)
    → All IsProper us
    → All IsProper vs
    → length us ≡ length vs
    → all_intersect us vs ≡ true
    → (xs : List ℤ) × Inside xs us × Inside xs vs
common_point [] [] p q l h = ([], tt, tt)
common_point [] (b ∷ vs) p q l h = ground arith
common_point (a ∷ us) [] p q l h = ground arith
common_point (a ∷ us) (b ∷ vs) p q l h =
    let (xs, inside, inside') = common_point us vs p.1 q.1 (omega (arith, l)) (ground (arith, h)) in
    let (x, above, below, above', below') = axis_meet a b p.0 q.0 (ground (arith, h)) in
    (x ∷ xs, (above, below, inside), (above', below', inside'))

point_common :
    (xs : List ℤ) (us vs : List AxisBounds)
    → Inside xs us
    → Inside xs vs
    → (all_intersect us vs ≡ true) × (length us ≡ length vs)
point_common [] [] [] p q = (refl, refl)
point_common [] [] (b ∷ vs) p q = absurd q
point_common [] (a ∷ us) vs p q = absurd p
point_common (x ∷ xs) [] vs p q = absurd p
point_common (x ∷ xs) (a ∷ us) [] p q = absurd q
point_common (x ∷ xs) (a ∷ us) (b ∷ vs) p q = ground (
  arith,
  point_common xs us vs p.2 q.2,
  le_trans a.lower x b.upper p.0 q.1,
  le_trans b.lower x a.upper q.0 p.1,
  leb_iff a.lower b.upper,
  leb_iff b.lower a.upper,
)

-- Boxes of different rank are refused. Of two proper boxes of one rank the test answers whether
-- some point lies in both.
pub intersects_iff :
    (b c : BoundingBox)
    → All IsProper b.axes
    → All IsProper c.axes
    → ((rank b ≢ rank c) × (intersects b c ≡ err invalid_input))
      ⊎ ((rank b ≡ rank c)
          × ((answer : Bool) × (intersects b c ≡ ok answer)
              × ((answer ≡ true) ↔ ((xs : List ℤ) × Inside xs b.axes × Inside xs c.axes))))
unfolding intersects
intersects_iff b c p q = elim (Bool-cases (rank b == rank c)) [
  | inr apart ↦ inl (ground arith, ground arith)
  | inl one ↦ inr (
    ground arith,
    (
      all_intersect b.axes c.axes,
      ground arith,
      (
        common_point b.axes c.axes p q (ground arith),
        λ (xs, inside, inside'). (point_common xs b.axes c.axes inside inside').0,
      ),
    ),
  )
]

axis_union-left :
    (a b : AxisBounds) (x : ℤ)
    → a.lower ≤ℤ x
    → x ≤ℤ a.upper
    → ((axis_union a b).lower ≤ℤ x) × (x ≤ℤ (axis_union a b).upper)
axis_union-left a b x h k = ground (arith, h, k)

axis_union-right :
    (a b : AxisBounds) (x : ℤ)
    → b.lower ≤ℤ x
    → x ≤ℤ b.upper
    → ((axis_union a b).lower ≤ℤ x) × (x ≤ℤ (axis_union a b).upper)
axis_union-right a b x h k = ground (arith, h, k)

union_axes-left :
    (xs : List ℤ) (us vs : List AxisBounds)
    → length us ≡ length vs
    → Inside xs us
    → Inside xs (union_axes us vs)
union_axes-left [] [] vs l p = tt
union_axes-left [] (u ∷ us) vs l p = absurd p
union_axes-left (x ∷ xs) [] vs l p = absurd p
union_axes-left (x ∷ xs) (u ∷ us) [] l p = ground arith
union_axes-left (x ∷ xs) (u ∷ us) (v ∷ vs) l p =
    let within = axis_union-left u v x p.0 p.1 in
    (within.0, within.1, union_axes-left xs us vs (omega (arith, l)) p.2)

union_axes-right :
    (xs : List ℤ) (us vs : List AxisBounds)
    → length us ≡ length vs
    → Inside xs vs
    → Inside xs (union_axes us vs)
union_axes-right [] [] [] l p = tt
union_axes-right [] us (v ∷ vs) l p = absurd p
union_axes-right [] (u ∷ us) [] l p = ground arith
union_axes-right (x ∷ xs) us [] l p = absurd p
union_axes-right (x ∷ xs) [] (v ∷ vs) l p = ground arith
union_axes-right (x ∷ xs) (u ∷ us) (v ∷ vs) l p =
    let within = axis_union-right u v x p.0 p.1 in
    (within.0, within.1, union_axes-right xs us vs (omega (arith, l)) p.2)

length-union_axes :
    (us vs : List AxisBounds) → length us ≡ length vs → length (union_axes us vs) ≡ length us
length-union_axes [] vs l = refl
length-union_axes (u ∷ us) [] l = ground arith
length-union_axes (u ∷ us) (v ∷ vs) l = omega (arith, length-union_axes us vs (omega (arith, l)))

-- The union of boxes of one rank has that rank and contains every point of each of them.
pub union_bounds-covers :
    (first : BoundingBox) (boxes : List BoundingBox)
    → All (λ b. rank b ≡ rank first) boxes
    → (rank (union_bounds first boxes) ≡ rank first)
      × ((b : BoundingBox) (xs : List ℤ)
          → In b (first ∷ boxes)
          → Inside xs b.axes
          → Inside xs (union_bounds first boxes).axes)
unfolding union_bounds union
union_bounds-covers first [] r = (
  refl,
  λ b xs h p. elim h [
    | inl e ↦ subst (λ (d : BoundingBox). Inside xs d.axes) e p
    | inr none_left ↦ absurd none_left
  ],
)
union_bounds-covers first (c ∷ boxes) r =
    let same_rank = length-union_axes first.axes c.axes (omega (arith, r.0)) in
    let (ranks, covers) =
      union_bounds-covers (union first c) boxes
        (subst (λ n. All (λ b. rank b ≡ n) boxes) (sym same_rank) r.1) in
    (
      ranks ∙ same_rank,
      λ b xs h p. elim h [
        | inl e ↦ covers (union first c) xs (inl refl) (
            union_axes-left xs first.axes c.axes (sym r.0)
              (subst (λ (d : BoundingBox). Inside xs d.axes) e p))
        | inr (inl e) ↦ covers (union first c) xs (inl refl) (
            union_axes-right xs first.axes c.axes (sym r.0)
              (subst (λ (d : BoundingBox). Inside xs d.axes) e p))
        | inr (inr later) ↦ covers b xs (inr later) p
      ],
    )
