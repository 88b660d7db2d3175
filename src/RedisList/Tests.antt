-- ===== src/RedisList/Tests.antt =====
-- Runs of the list operations of src/list_type.rs on small lists.
use kore.Base.{◌≡◌, List, [], ◌∷◌, Bytes}
use kore.Base.Int.{negsuc}
use kore.RedisList.{RedisList, lrem}
use kore.RedisList.Removal.{Removes, lrem-Removes}
use kore.RedisList.Position.{lpos, lpos_reference, lpos_lem}

abbrev apple : Bytes
apple = 97 ∷ []

abbrev pear : Bytes
pear = 112 ∷ []

abbrev plum : Bytes
plum = 117 ∷ []

abbrev basket : RedisList
basket = record { items = apple ∷ pear ∷ apple ∷ plum ∷ [] }

abbrev two_new : List Bytes
two_new = pear ∷ plum ∷ []

lrem-Removes_example :
    Removes
      (negsuc 0)
      apple
      basket.items
      ((lrem (negsuc 0) apple basket).0.items, (lrem (negsuc 0) apple basket).1)
lrem-Removes_example = lrem-Removes (negsuc 0) apple basket

lpos_lem_example :
    lpos apple (negsuc 0) 1 0 basket ≡ lpos_reference apple (negsuc 0) 1 0 basket.items
lpos_lem_example = lpos_lem apple (negsuc 0) 1 0 basket
