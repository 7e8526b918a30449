-- ===== src/LinkedList/Examples.antt =====
-- A list that is built and cleared, and the theorems about lists at concrete inputs.
use gnubg_android.Base.{◌≡◌, refl, true, false, none, some, List, [], ◌∷◌, arith}
use gnubg_android.LinkedList.{Heap, list_create, list_delete_all, list_empty}
use gnubg_android.LinkedList.Rings.{Cells}
use gnubg_android.LinkedList.Refined.{
  Holds, Call, insert, delete, run_calls, ListCalls, no_call, call, at_end, in_front, out,
  run_calls-list_create, list_delete_all_lem,
}

-- Two nodes at the end, one in front of the second, and the first deleted.
abbrev some_calls : List Call
some_calls = insert 1 100 2 ∷ insert 1 101 3 ∷ insert 3 102 4 ∷ delete 2 ∷ []

abbrev the_cells : Cells
the_cells = (1, 0) ∷ (4, 102) ∷ (3, 101) ∷ []

some_calls_made : ListCalls some_calls ((1, 0) ∷ []) the_cells
some_calls_made = call (at_end 1 100 2 0 [] refl) (
    call (at_end 1 101 3 0 ((2, 100) ∷ []) refl) (
      call (in_front 3 102 4 101 (1, 0) ((2, 100) ∷ []) [] refl)
        (call (out 2 100 (1, 0) [] ((4, 102) ∷ (3, 101) ∷ [])) no_call)))

run_calls-list_create_example :
    (h : Heap) × (run_calls some_calls (list_create (λ a. none) 1) ≡ some h) × Holds h the_cells
run_calls-list_create_example = run_calls-list_create 1 some_calls the_cells some_calls_made

-- The heap after these calls.
abbrev built : Heap
built = run_calls-list_create_example.0

list_delete_all_lem_example :
    (h' : Heap) × (list_delete_all 2 built 1 ≡ some (h', 102 ∷ 101 ∷ []))
    × Holds h' ((1, 0) ∷ [])
    × (list_empty h' 1 ≡ some true)
    × (list_empty built 1 ≡ some false)
list_delete_all_lem_example =
    list_delete_all_lem built 1 0 2 ((4, 102) ∷ (3, 101) ∷ []) (omega arith)
      run_calls-list_create_example.2
