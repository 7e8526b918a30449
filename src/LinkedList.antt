-- ===== src/LinkedList.antt =====
-- Circular doubly linked lists, engine-core/lib/list.c and list.h, on a heap of nodes. A pointer is a
-- number, and 0 is NULL. What uses memory that is not allocated is `none`. `g_malloc` is not code
-- of the repository: the address it returns is an argument. The data that a node points to is freed
-- by `g_free`: the pointers that are passed to it are listed.
pub mod Rings
pub mod Steps
pub mod Insert
pub mod Delete
pub mod Refined
mod Examples
use gnubg_android.Base.{
  ℕ, zero, suc, Bool, true, false, ◌&&◌, Option, none, some, List, [], ◌∷◌, ◌++◌, ◌==◌, ◌>>=◌,
  if◌then◌else◌,
}
use mathlib.Core.Option

abbrev pub Ptr : Type 0
Ptr = ℕ

-- `listOLD`.
pub record Node : Type 0 where
  pub pl_prev : Ptr
  pub pl_next : Ptr
  pub p : Ptr

abbrev pub Heap : Type 0
Heap = Ptr → Option Node

unfoldable pub write : Heap → Ptr → Option Node → Heap
write h a n x = if x == a then n else h x

-- `a->plPrev = v` and `a->plNext = v`.
abbrev pub set_prev : Heap → Ptr → Ptr → Option Heap
set_prev h a v = Option.map (λ n. write h a (some (record n { pl_prev = v }))) (h a)

abbrev pub set_next : Heap → Ptr → Ptr → Option Heap
set_next h a v = Option.map (λ n. write h a (some (record n { pl_next = v }))) (h a)

unfoldable pub list_create : Heap → Ptr → Heap
list_create h pl = write h pl (some (record { pl_prev = pl; pl_next = pl; p = 0 }))

-- Before `pl`, where `g_malloc` returns `pl_new`, which is returned.
unfoldable pub list_insert : Heap → Ptr → Ptr → Ptr → Option Heap
list_insert h pl p pl_new = do
  here ← h pl
  let h = write h pl_new (some (record { pl_prev = here.pl_prev; pl_next = pl; p = p }))
  h ← set_prev h pl pl_new
  new ← h pl_new
  set_next h new.pl_prev pl_new

unfoldable pub list_delete : Heap → Ptr → Option Heap
list_delete h pl = do
  here ← h pl
  h ← set_next h here.pl_prev here.pl_next
  here ← h pl
  h ← set_prev h here.pl_next here.pl_prev
  some (write h pl none)

unfoldable pub list_empty : Heap → Ptr → Option Bool
list_empty h pl = do here ← h pl; some (here.pl_next == pl && here.pl_prev == pl)

-- The loop from `pc` on, with the data freed so far; a round frees a node.
unfoldable pub delete_from : ℕ → Heap → Ptr → Ptr → List Ptr → Option (Heap × List Ptr)
delete_from zero h pl pc freed = if pc == pl then some (h, freed) else none
delete_from (suc fuel) h pl pc freed = elim (pc == pl) [
  | true ↦ some (h, freed)
  | false ↦ do
    node ← h pc
    h ← list_delete h pc
    delete_from fuel h pl node.pl_next (freed ++ (node.p ∷ []))
]

unfoldable pub list_delete_all : ℕ → Heap → Ptr → Option (Heap × List Ptr)
list_delete_all fuel h pl = do here ← h pl; delete_from fuel h pl here.pl_next []
