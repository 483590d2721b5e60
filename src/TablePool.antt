-- ===== src/TablePool.antt =====
-- pool.go and table.go: the table objects that `DB.Table` takes out of `tablePool` and `Release` puts
-- back, as one store that all callers share. A table is an address; the pool is a bag of addresses, out of
-- which `sync.Pool` hands any, or none, and which it may drop at any time.
pub mod Isolation
mod Tests
use mathlib.Core.List.{Mem, Perm}
use xlorm.Common.{ℕ, ◌+◌, ◌==◌, ◌≡◌, ◌≢◌, List, [], ◌∷◌, if◌then◌else◌, Option, none, some}
use xlorm.Text.{Text}
use xlorm.Table.{Db, Table, reset, new_table}

-- `Release`: the object that goes back to the pool; `none` is the panic on a table without a database.
-- What it writes in debug mode is left out.
unfoldable pub release : Table → Option Table
unfolding reset
release t = elim t.db [ none ↦ none | some db ↦ some (reset t) ]

abbrev pub Objects : Type 0
Objects = ℕ → Table

-- A write through the address `r`.
abbrev pub store : Objects → ℕ → Table → Objects
store objects r t = λ q. if q == r then t else objects q

-- The memory, with the first unused address, the bag of `tablePool`, and the bag of the tables that their
-- callers have not released.
pub record Heap : Type 0 where
  pub objects : Objects
  pub next : ℕ
  pub free : List ℕ
  pub held : List ℕ

-- Who makes a step: `some r` is the caller with the table `r`; `none` is a caller without a table, or the
-- garbage collector.
pub data Step (s : Heap) : Option ℕ → Heap → Type 0 where
  -- `DB.Table`, with an object of the pool
  reuse :
      (db : Db) (name : Text) (r : ℕ) (rest : List ℕ)
      → Perm s.free (r ∷ rest)
      → Step s none (record s {
        objects = store s.objects r (new_table db (s.objects r) name).0;
        free = rest;
        held = r ∷ s.held;
      })
  -- `DB.Table`, with the object `made` that `New` makes
  make :
      (db : Db) (name : Text) (made : Table)
      → Step s none (record s {
        objects = store s.objects s.next (new_table db made name).0;
        next = s.next + 1;
        held = s.next ∷ s.held;
      })
  -- a method of the table, which may write any of its fields
  change :
      (r : ℕ) (t : Table)
      → Mem r s.held
      → Step s (some r) (record s { objects = store s.objects r t })
  -- `Release`, by the caller or at the end of a statement; the caller then forgets the table
  give_back :
      (r : ℕ) (rest : List ℕ) (t : Table)
      → Perm s.held (r ∷ rest)
      → release (s.objects r) ≡ some t
      → Step s (some r) (record s { objects = store s.objects r t; free = r ∷ s.free; held = rest })
  -- `sync.Pool` drops an object
  drop : (r : ℕ) (rest : List ℕ) → Perm s.free (r ∷ rest) → Step s none (record s { free = rest })

pub data Reach : Heap → Type 0 where
  start : (objects : Objects) → Reach (record { objects = objects; next = 0; free = []; held = [] })
  then : {s s' : Heap} {who : Option ℕ} → Reach s → Step s who s' → Reach s'

-- Steps of everyone but the caller with the table `r`.
pub data Others (r : ℕ) (s : Heap) : Heap → Type 0 where
  nothing : Others r s s
  and_then :
      {s' s'' : Heap} {who : Option ℕ}
      → Others r s s'
      → Step s' who s''
      → who ≢ some r
      → Others r s s''
