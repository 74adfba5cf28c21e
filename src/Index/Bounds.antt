-- ===== src/Index/Bounds.antt =====
-- crates/rnmdb-index/src/lib.rs: `AxisBounds` and `BoundingBox`, the boxes of `MemoryBoundsIndex`.
pub mod Laws
use rnov_modular_db.Base.{
  ℕ, Bool, true, false, not, ◌&&◌, List, [], ◌∷◌, ◌==◌, length, is_empty, if◌then◌else◌,
}
use rnov_modular_db.Base.Int.{ℤ, leb_ℤ, min_ℤ, max_ℤ}
use rnov_modular_db.Common.{Result, ok, err, invalid_input, reject_if, ◌>>◌}

pub record AxisBounds : Type 0 where
  pub lower : ℤ
  pub upper : ℤ

-- `AxisBounds::new`
pub axis_new : ℤ → ℤ → Result AxisBounds
axis_new lower upper =
    reject_if (not (leb_ℤ lower upper)) invalid_input
    >> ok (record { lower = lower; upper = upper })

-- `AxisBounds::intersects`
abbrev pub axis_intersects : AxisBounds → AxisBounds → Bool
axis_intersects a b = leb_ℤ a.lower b.upper && leb_ℤ b.lower a.upper

pub record BoundingBox : Type 0 where
  pub axes : List AxisBounds

-- `BoundingBox::new`
pub box_new : List AxisBounds → Result BoundingBox
box_new axes = reject_if (is_empty axes) invalid_input >> ok (record { axes = axes })

-- `BoundingBox::rank`
abbrev pub rank : BoundingBox → ℕ
rank b = length b.axes

-- The iterator of `BoundingBox::intersects`; `zip` stops at the shorter of the two.
abbrev pub all_intersect : List AxisBounds → List AxisBounds → Bool
all_intersect [] vs = true
all_intersect (a ∷ us) [] = true
all_intersect (a ∷ us) (b ∷ vs) = axis_intersects a b && all_intersect us vs

-- `BoundingBox::intersects`
pub intersects : BoundingBox → BoundingBox → Result Bool
intersects b c =
    reject_if (not (rank b == rank c)) invalid_input >> ok (all_intersect b.axes c.axes)

-- The axis that `BoundingBox::union` builds of two.
abbrev pub axis_union : AxisBounds → AxisBounds → AxisBounds
axis_union a b = record { lower = min_ℤ a.lower b.lower; upper = max_ℤ a.upper b.upper }

abbrev pub union_axes : List AxisBounds → List AxisBounds → List AxisBounds
union_axes [] vs = []
union_axes (a ∷ us) [] = []
union_axes (a ∷ us) (b ∷ vs) = axis_union a b ∷ union_axes us vs

-- `BoundingBox::union`
pub union : BoundingBox → BoundingBox → BoundingBox
union b c = record { axes = union_axes b.axes c.axes }

-- The fold of `union_bounds`, which starts from the first box.
pub union_bounds : BoundingBox → List BoundingBox → BoundingBox
union_bounds first [] = first
union_bounds first (b ∷ vs) = union_bounds (union first b) vs
