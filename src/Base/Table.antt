-- ===== src/Base/Table.antt =====
-- A table as the list of its rows: the SQL statements that the repositories issue, over a test on
-- rows, and their laws.
pub mod Keys
pub mod Queries
use mathlib.Core.Bool.{Bool, true, false}
use mathlib.Core.Option.{Option, none, some}
use mathlib.Core.List.{List, [], ◌∷◌}
use fasti_kit.Base.Tests.{if◌then◌else◌}

module _ {ℓ} {R : Type ℓ} where
  -- the first row that passes the test
  unfoldable pub find : (R → Bool) → List R → Option R
  find p [] = none
  find p (r ∷ rs) = if p r then some r else find p rs

  -- `SELECT ... WHERE p`
  unfoldable pub select : (R → Bool) → List R → List R
  select p [] = []
  select p (r ∷ rs) = let rest = select p rs in if p r then r ∷ rest else rest

  -- `UPDATE ... SET f WHERE p`
  unfoldable pub update_where : (R → Bool) → (R → R) → List R → List R
  update_where p f [] = []
  update_where p f (r ∷ rs) = (if p r then f r else r) ∷ update_where p f rs

  -- `DELETE ... WHERE p`
  unfoldable pub delete_where : (R → Bool) → List R → List R
  delete_where p [] = []
  delete_where p (r ∷ rs) = let rest = delete_where p rs in if p r then rest else r ∷ rest

  unfoldable pub any : (R → Bool) → List R → Bool
  any p [] = false
  any p (r ∷ rs) = if p r then true else any p rs
