-- ===== src/Radix/Tests.antt =====
-- Runs of the radix tree, and the theorems at a concrete tree.
use rucix_kernel.Common.{
  ℕ, ◌≡◌, refl, inl, inr, arith, List, [], ◌∷◌, Bool, true, ◌&&◌, some, if◌then◌else◌, ◌==◌,
  Bool-cases,
}
use rucix_kernel.Radix.{
  null, item, node, is_null, Root, radix_tree_insert, radix_tree_lookup, radix_tree_delete,
  capacity,
}
use rucix_kernel.Radix.Find.{Good, occupied}
use rucix_kernel.Radix.Insert.{Enough}
use rucix_kernel.Radix.Extend.{IsValid}
use rucix_kernel.Radix.Refine.{insert-lookup}
use rucix_kernel.Radix.Remove.{delete-lookup}

-- The item 7 at the index 5.
abbrev single : Root
single = record { height = 1; rnode = node 1 (λ o. if o == 5 then item 7 else null) }

single-IsValid : IsValid single
unfolding IsValid Good occupied
single-IsValid = (
  omega arith,
  inr (
    omega arith,
    (refl, λ o lt. elim (Bool-cases (o == 5)) [ inl e ↦ rw e (inr tt) | inr e ↦ rw e (inl refl) ]),
  ),
)

abbrev memory : List Bool
memory = true ∷ true ∷ true ∷ []

insert-lookup_example :
    (ok : Bool) × (r' : Root) × (m' : List Bool) × (radix_tree_insert 11 single 70 (item 8) memory
      ≡ some (ok, r', m'))
    × IsValid r'
    × ((j : ℕ)
        → radix_tree_lookup r' j ≡ (if ok && (j == 70) then item 8 else radix_tree_lookup single j))
    × (ok ≡ true → radix_tree_lookup single 70 ≡ null)
    × (Enough 21 memory → ok ≡ is_null (radix_tree_lookup single 70))
unfolding capacity
insert-lookup_example = insert-lookup single 70 8 memory single-IsValid (omega arith)

delete-lookup_example :
    IsValid (radix_tree_delete single 5).1
    × ((radix_tree_delete single 5).0 ≡ radix_tree_lookup single 5)
    × ((j : ℕ)
        → radix_tree_lookup (radix_tree_delete single 5).1 j
          ≡ (if j == 5 then null else radix_tree_lookup single j))
delete-lookup_example = delete-lookup single 5 single-IsValid
