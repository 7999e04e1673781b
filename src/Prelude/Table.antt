-- ===== src/Prelude/Table.antt =====
-- A database table: rows under their primary key. A query by key finds at most one row.
use Prim.Native.Nat.{ℕ}
use mathlib.Core.Path.{◌≡◌}
use mathlib.Core.Option.{Option, none, some}
use mathlib.Core.Option
use mathlib.Core.List.{List, [], ◌∷◌}
use native.Mathlib.Omega.{arith}
use agent_on_demand.Prelude.Tests.{◌==◌, if◌then◌else◌}

abbrev pub Table {ℓ} : Type ℓ → Type ℓ
Table A = List (ℕ × A)

module _ {ℓ} {A : Type ℓ} where
  -- `objects.get(pk=k)`; `none` is `DoesNotExist`.
  unfoldable pub get : ℕ → Table A → Option A
  get k [] = none
  get k ((j, a) ∷ t) = if j == k then some a else get k t

  -- `save(update_fields=…)`: an UPDATE of the row with this key.
  unfoldable pub modify : ℕ → (A → A) → Table A → Table A
  modify k f [] = []
  modify k f ((j, a) ∷ t) = if j == k then (j, f a) ∷ modify k f t else (j, a) ∷ modify k f t

  -- DELETE of the row with this key.
  unfoldable pub remove : ℕ → Table A → Table A
  remove k [] = []
  remove k ((j, a) ∷ t) = if j == k then remove k t else (j, a) ∷ remove k t

  pub get-modify :
      (j k : ℕ) (f : A → A) (t : Table A)
      → get j (modify k f t) ≡ (if k == j then Option.map f (get j t) else get j t)
  unfolding get modify
  get-modify j k f [] = ground arith
  get-modify j k f ((i, a) ∷ t) = ground (arith, get-modify j k f t)

  pub get-remove : (j k : ℕ) (t : Table A) → get j (remove k t) ≡ (if k == j then none else get j t)
  unfolding get remove
  get-remove j k [] = ground arith
  get-remove j k ((i, a) ∷ t) = ground (arith, get-remove j k t)
