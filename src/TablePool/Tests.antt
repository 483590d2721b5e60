-- ===== src/TablePool/Tests.antt =====
-- One caller keeps a table while the other releases its own, and gets it again.
use mathlib.Core.List.{Mem, Nodup, mem-cons_self, mem-cons_of_mem}
use mathlib.Core.List.Perm
use xlorm.Common.{ℕ, Option, ◌≡◌, ◌≢◌, ◌++◌, refl, [], ◌∷◌, none, some}
use xlorm.Text.{codes, contains_any, has_byte}
use xlorm.Table.{Db, Table, cleared, new_table}
use xlorm.TablePool.{
  Heap, store, release, reuse, make, give_back, Reach, start, then, Others, nothing, and_then,
}
use xlorm.TablePool.Isolation.{others-Kept}

abbrev shop : Db
shop = record { table_pre = codes "s_"; slow_query_threshold = 1 }

abbrev orders : Table
orders = (new_table shop cleared (codes "orders")).0

abbrev users : Table
users = (new_table shop cleared (codes "users")).0

abbrev empty : Heap
empty = record { objects = λ r. cleared; next = 0; free = []; held = [] }

abbrev one : Heap
one = record { objects = store empty.objects 0 orders; next = 1; free = []; held = 0 ∷ [] }

abbrev two : Heap
two = record { objects = store one.objects 1 users; next = 2; free = []; held = 1 ∷ 0 ∷ [] }

abbrev one_back : Heap
one_back = record two { objects = store two.objects 1 cleared; free = 1 ∷ []; held = 0 ∷ [] }

abbrev again : Heap
again = record one_back { objects = store one_back.objects 1 orders; free = []; held = 1 ∷ 0 ∷ [] }

two-Reach : Reach two
two-Reach =
    then (then (start (λ r. cleared)) (make shop (codes "orders") cleared))
      (make shop (codes "users") cleared)

others : Others 0 two again
unfolding release new_table codes contains_any has_byte
others =
    and_then
      (and_then nothing (give_back 1 (0 ∷ []) cleared (Perm.refl _) refl) (λ e. one-ne-zero e))
      (reuse shop (codes "orders") 1 [] (Perm.refl _)) (λ e. none-ne e)
  where
    one-ne-zero : ◌≢◌ {A = Option ℕ} (some 1) (some 0)
    one-ne-zero e = cc

    none-ne : ◌≢◌ {A = Option ℕ} none (some 0)
    none-ne e = cc

others-Kept_example :
    Nodup (again.held ++ again.free) × Mem 0 again.held × (again.objects 0 ≡ two.objects 0)
others-Kept_example = others-Kept two-Reach (mem-cons_of_mem 1 mem-cons_self) others
