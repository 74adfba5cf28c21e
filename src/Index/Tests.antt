-- ===== src/Index/Tests.antt =====
-- Instances of the theorems on the indexes.
use rnov_modular_db.Base.{
  ℕ, ◌≡◌, ◌≢◌, refl, ◌↔◌, ◌⊎◌, Bool, true, false, none, some, [], ◌∷◌, List, In, All, length, arith,
}
use Prim.Native.Nat.Ordering.{gt}
use rnov_modular_db.Base.Int.{ℤ, pos, negsuc}
use rnov_modular_db.Common.{ok, err, invalid_input}
use rnov_modular_db.Collections.BTreeMap
use rnov_modular_db.Index.Key.{IndexKey, int64, text, key_order, IndexPointer}
use rnov_modular_db.Index.Entries.Insert.{IsValid}
use rnov_modular_db.Index.BTree
use rnov_modular_db.Index.BTree.{
  MemoryBTreeIndex, insert, merge_from, Bound, included, excluded, range_scan_bounds,
}
use rnov_modular_db.Index.BTree.Laws.{insert-merge_from-IsValid, merge_from_outcome}
use rnov_modular_db.Index.Entries.Unique.{Disjoint, IsUnion}
use rnov_modular_db.Index.BTree.Range.{InRange, range_scan_exact}
use rnov_modular_db.Index.Composite
use rnov_modular_db.Index.Composite.{
  CompositeIndexKey, composite_order, CompositeKeyPattern, MemoryCompositeIndex, any_bound,
  skip_scan,
}
use rnov_modular_db.Index.Composite.Laws.{IsComposite, Hit, insert-IsComposite, skip_scan_exact}
use rnov_modular_db.Index.Bounds.{BoundingBox, rank, intersects}
use rnov_modular_db.Index.Bounds.Laws.{Inside, IsProper, intersects_iff}
use rnov_modular_db.Index.Summary.{
  BlockRange, IndexKeyFamily, int64_family, family_of, BlockSummaryIndex, range_candidates,
}
use rnov_modular_db.Index.Summary.Laws.{Candidate, IsUniform, range_candidates_exact}

abbrev low : IndexKey
low = int64 (negsuc 2)

abbrev key : IndexKey
key = int64 (pos 5)

abbrev page : IndexPointer
page = record { page_id = 1; slot_id = 2 }

abbrev other_page : IndexPointer
other_page = record { page_id = 3; slot_id = 0 }

abbrev empty : MemoryBTreeIndex
empty = BTree.new (97 ∷ []) false

abbrev sample : MemoryBTreeIndex
sample = record {
  name = 97 ∷ [];
  unique = false;
  entries =
      (low, page ∷ other_page ∷ []) ∷ (key, page ∷ []) ∷ (text (98 ∷ []), other_page ∷ []) ∷ [];
}

sorted : BTreeMap.IsSorted sample.entries
sorted = ((refl, (refl, tt)), ((refl, tt), (tt, tt)))

empty-IsValid : IsValid {K = IndexKey} false []
empty-IsValid = record {
  sorted = tt;
  nodup = λ k. tt;
  single = λ u k. omega arith;
  filled = λ k ps e. absurd (cc);
}

abbrev from : Bound
from = excluded low

abbrev to : Bound
to = included (text [])

abbrev pair_key : CompositeIndexKey
pair_key = record { parts = key ∷ low ∷ [] }

abbrev pairs : MemoryCompositeIndex
pairs = Composite.new (97 ∷ []) true

pairs-IsComposite : IsComposite pairs
pairs-IsComposite = record {
  valid = record {
    sorted = tt;
    nodup = λ k. tt;
    single = λ u k. omega arith;
    filled = λ k ps e. absurd (cc);
  };
  ranked = refl;
}

-- One key of two parts, of which the question binds the second.
abbrev filled : MemoryCompositeIndex
filled = (Composite.insert pair_key page pairs).1

filled-IsComposite : IsComposite filled
filled-IsComposite = insert-IsComposite pair_key page pairs pairs-IsComposite

abbrev asked : CompositeKeyPattern
asked = record { parts = none ∷ some low ∷ [] }

abbrev square : BoundingBox
square = record {
  axes = record { lower = negsuc 1; upper = pos 4 } ∷ record { lower = pos 0; upper = pos 3 } ∷ [];
}

abbrev strip : BoundingBox
strip = record {
  axes = record { lower = pos 4; upper = pos 9 } ∷ record { lower = pos 2; upper = pos 2 } ∷ [];
}

square-IsProper : All IsProper square.axes
square-IsProper = (omega arith, (omega arith, tt))

strip-IsProper : All IsProper strip.axes
strip-IsProper = (omega arith, (omega arith, tt))

abbrev first : BlockRange
first = record { start_page = 0; end_page = 9 }

abbrev blocks : BlockSummaryIndex
blocks = record { name = 97 ∷ []; key_family = none; summaries = [] }

abbrev summed : BlockSummaryIndex
summed = record {
  name = 97 ∷ [];
  key_family = some int64_family;
  summaries = record { pages = first; min_key = low; max_key = key } ∷ [];
}

summed-IsUniform : IsUniform summed
summed-IsUniform = ((λ e. cc, refl, refl), tt)

insert-merge_from-IsValid_example :
    IsValid empty.unique (insert key page empty).1.entries
    × IsValid empty.unique (merge_from sample empty).1.entries
insert-merge_from-IsValid_example = insert-merge_from-IsValid key page sample empty empty-IsValid

merge_from_outcome_example :
    (((sample.name ≢ empty.name) ⊎ (sample.unique ≢ empty.unique))
      × (merge_from empty sample ≡ (err invalid_input, sample)))
    ⊎ ((sample.name ≡ empty.name)
        × (sample.unique ≡ empty.unique)
        × ((sample.unique ≡ false) ⊎ Disjoint sample.entries empty.entries)
        × ((merge_from empty sample).0 ≡ ok tt)
        × IsUnion sample.entries empty.entries (merge_from empty sample).1.entries)
    ⊎ ((sample.name ≡ empty.name)
        × (sample.unique ≡ true)
        × (empty.unique ≡ true)
        × ((k : IndexKey) × (BTree.point_lookup k sample ≢ []) × (BTree.point_lookup k empty ≢ []))
        × ((merge_from empty sample).0 ≡ err invalid_input)
        × ((k : IndexKey) (p : IndexPointer)
            → In p (BTree.point_lookup k sample)
            → In p (BTree.point_lookup k (merge_from empty sample).1)))
merge_from_outcome_example = merge_from_outcome empty sample empty-IsValid

range_scan_exact_example :
    (ps : List IndexPointer) × (range_scan_bounds from to sample ≡ some ps)
    × ((p : IndexPointer) → In p ps ↔ InRange from to p sample.entries)
range_scan_exact_example = range_scan_exact from to sample sorted

intersects_iff_example :
    ((rank square ≢ rank strip) × (intersects square strip ≡ err invalid_input))
    ⊎ ((rank square ≡ rank strip)
        × ((answer : Bool) × (intersects square strip ≡ ok answer)
            × ((answer ≡ true) ↔ ((xs : List ℤ) × Inside xs square.axes × Inside xs strip.axes))))
intersects_iff_example = intersects_iff square strip square-IsProper strip-IsProper

skip_scan_exact_example :
    (((any_bound asked.parts ≡ false)
        ⊎ ((r : ℕ) × (filled.rank ≡ some r) × (r ≢ length asked.parts)))
      × (skip_scan asked filled ≡ err invalid_input))
    ⊎ ((any_bound asked.parts ≡ true)
        × ((ps : List IndexPointer) × (skip_scan asked filled ≡ ok ps)
            × ((p : IndexPointer) → In p ps ↔ Hit asked.parts p filled.entries)))
skip_scan_exact_example = skip_scan_exact asked filled filled-IsComposite

range_candidates_exact_example :
    (((family_of low ≢ family_of key)
        ⊎ (key_order.cmp low key ≡ gt)
        ⊎ ((f : IndexKeyFamily) × (summed.key_family ≡ some f) × (f ≢ family_of low)))
      × (range_candidates low key summed ≡ err invalid_input))
    ⊎ ((ranges : List BlockRange) × (range_candidates low key summed ≡ ok ranges)
        × ((pages : BlockRange) → In pages ranges ↔ Candidate low key pages summed.summaries))
range_candidates_exact_example = range_candidates_exact low key summed summed-IsUniform
