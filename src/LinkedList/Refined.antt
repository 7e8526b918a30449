-- ===== src/LinkedList/Refined.antt =====
-- Calls of engine-core/lib/list.c as operations on a list.
use mathlib.Core.List.{append_assoc, append-nil}
use gnubg_android.Base.{
  ℕ, zero, suc, ◌≤◌, ◌<◌, ◌≡◌, ◌≢◌, refl, sym, ◌∙◌, ap, subst, Bool-cases, true, false, ◌&&◌,
  Option, none, some, ◌>>=◌, List, [], ◌∷◌, ◌++◌, length, length-append, ◌==◌, inl, inr, arith,
}
use gnubg_android.LinkedList.{
  Ptr, Heap, list_create, list_insert, list_delete, list_empty, delete_from, list_delete_all,
}
use gnubg_android.LinkedList.Rings.{
  Cells, has, first, last, Ring, has-append, outside_append, outside_cons, rotate,
}
use gnubg_android.LinkedList.Steps.{Leads, write_here, write_there}
use gnubg_android.LinkedList.Insert.{insert_first}
use gnubg_android.LinkedList.Delete.{delete_first}

-- A heap that holds a ring and nothing else.
pub record Holds (h : Heap) (xs : Cells) : Type 0 where
  pub ring : Ring h xs
  pub only : (a : Ptr) → has a xs ≡ false → h a ≡ none

rotate-Holds : (h : Heap) (xs ys : Cells) → Holds h (xs ++ ys) → Holds h (ys ++ xs)
rotate-Holds h xs ys k = record {
  ring = rotate h xs ys k.ring;
  only = λ a i.
      let (out_y, out_x) = outside_append a ys xs i in
      k.only a (has-append a xs ys ∙ ground (arith, out_x, out_y));
}

Leads-Holds :
    (h : Heap) (r : Option Heap) (xs ys : Cells)
    → Holds h xs
    → Leads h r xs ys
    → (h' : Heap) × (r ≡ some h') × Holds h' ys
Leads-Holds h r xs ys k l = (
  l.h',
  l.result,
  record {
    ring = l.ring;
    only = λ a j. elim (Bool-cases (has a xs)) [
      | inl old ↦ l.freed a old j
      | inr new ↦ l.rest a new j ∙ k.only a new
    ];
  },
)

-- The call, as it leads on to a ring.
abbrev Onto : Option Heap → Cells → Type 0
Onto r ys = (h' : Heap) × (r ≡ some h') × Holds h' ys

-- Before any node but the first.
insert_inside :
    (h : Heap) (pl p new v : Ptr) (xs ys : Cells) (x : Ptr × Ptr)
    → Holds h ((x ∷ xs) ++ ((pl, v) ∷ ys))
    → h new ≡ none
    → Onto (list_insert h pl p new) ((x ∷ xs) ++ ((new, p) ∷ (pl, v) ∷ ys))
insert_inside h pl p new v xs ys x k free =
    let turned = rotate-Holds h (x ∷ xs) ((pl, v) ∷ ys) k in
    let (h', e, k') =
      Leads-Holds h (list_insert h pl p new) _ _ turned
        (insert_first h pl p new v free (ys ++ (x ∷ xs)) turned.ring) in
    let k2 : Holds h' (((pl, v) ∷ ys) ++ ((x ∷ xs) ++ ((new, p) ∷ []))) =
      subst (Holds h') (append_assoc ((pl, v) ∷ ys) (x ∷ xs) ((new, p) ∷ [])) k' in
    let k3 = rotate-Holds h' ((pl, v) ∷ ys) ((x ∷ xs) ++ ((new, p) ∷ [])) k2 in
    (h', e, subst (Holds h') (append_assoc (x ∷ xs) ((new, p) ∷ []) ((pl, v) ∷ ys)) k3)

-- The first node, if others are there.
delete_front :
    (h : Heap) (pl v : Ptr) (xs : Cells)
    → 0 < length xs
    → Holds h ((pl, v) ∷ xs)
    → Onto (list_delete h pl) xs
delete_front h pl v [] more k = absurd (omega arith)
delete_front h pl v ((m, u) ∷ xs) more k =
    Leads-Holds h (list_delete h pl) _ _ k (delete_first h pl v m u xs k.ring)

-- Any node but the first.
delete_inside :
    (h : Heap) (pl v : Ptr) (xs ys : Cells) (x : Ptr × Ptr)
    → Holds h ((x ∷ xs) ++ ((pl, v) ∷ ys))
    → Onto (list_delete h pl) ((x ∷ xs) ++ ys)
delete_inside h pl v xs ys x k =
    let turned = rotate-Holds h (x ∷ xs) ((pl, v) ∷ ys) k in
    let (h', e, k') =
      delete_front h pl v (ys ++ (x ∷ xs)) (omega (arith, length-append ys (x ∷ xs))) turned in
    (h', e, rotate-Holds h' ys (x ∷ xs) k')

-- Calls on the nodes of a list, and what they do to a list that begins with its head.
pub data Call : Type 0 where
  insert : (pl p pl_new : Ptr) → Call
  delete : (pl : Ptr) → Call

unfoldable pub run_calls : List Call → Heap → Option Heap
run_calls [] h = some h
run_calls (insert pl p pl_new ∷ calls) h = do h ← list_insert h pl p pl_new; run_calls calls h
run_calls (delete pl ∷ calls) h = do h ← list_delete h pl; run_calls calls h

-- A new node comes in front of the one that is named, and in front of the head is at the end. The
-- address that `g_malloc` returns is not one of the list's, and the head is not deleted.
pub data ListCall : Call → Cells → Cells → Type 0 where
  at_end :
      (pl p pl_new v : Ptr) (xs : Cells)
      → has pl_new ((pl, v) ∷ xs) ≡ false
      → ListCall (insert pl p pl_new) ((pl, v) ∷ xs) (((pl, v) ∷ xs) ++ ((pl_new, p) ∷ []))
  in_front :
      (pl p pl_new v : Ptr) (head : Ptr × Ptr) (xs ys : Cells)
      → has pl_new ((head ∷ xs) ++ ((pl, v) ∷ ys)) ≡ false
      → ListCall
          (insert pl p pl_new)
          ((head ∷ xs) ++ ((pl, v) ∷ ys))
          ((head ∷ xs) ++ ((pl_new, p) ∷ (pl, v) ∷ ys))
  out :
      (pl v : Ptr) (head : Ptr × Ptr) (xs ys : Cells)
      → ListCall (delete pl) ((head ∷ xs) ++ ((pl, v) ∷ ys)) ((head ∷ xs) ++ ys)

pub data ListCalls : List Call → Cells → Cells → Type 0 where
  no_call : {xs : Cells} → ListCalls [] xs xs
  call :
      {c : Call} {calls : List Call} {xs ys zs : Cells}
      → ListCall c xs ys
      → ListCalls calls ys zs
      → ListCalls (c ∷ calls) xs zs

-- A call that leads to a heap, and the calls after it.
and_then :
    (r : Option Heap) (k : Heap → Option Heap) (ys zs : Cells)
    → Onto r ys
    → ((h : Heap) → Holds h ys → Onto (k h) zs)
    → Onto (r >>= k) zs
and_then r k ys zs (h, e, held) rest = rw e (rest h held)

run_calls-Holds :
    {calls : List Call} {xs ys : Cells} (h : Heap)
    → ListCalls calls xs ys
    → Holds h xs
    → Onto (run_calls calls h) ys
unfolding run_calls
run_calls-Holds h no_call k = (h, refl, k)
run_calls-Holds h (call (at_end pl p pl_new v xs fresh) rest) k =
    and_then (list_insert h pl p pl_new) _ _ _
      (Leads-Holds h _ _ _ k (insert_first h pl p pl_new v (k.only pl_new fresh) xs k.ring))
      (λ h' k'. run_calls-Holds h' rest k')
run_calls-Holds h (call (in_front pl p pl_new v head xs ys fresh) rest) k =
    and_then (list_insert h pl p pl_new) _ _ _
      (insert_inside h pl p pl_new v xs ys head k (k.only pl_new fresh))
      (λ h' k'. run_calls-Holds h' rest k')
run_calls-Holds h (call (out pl v head xs ys) rest) k =
    and_then (list_delete h pl) _ _ _ (delete_inside h pl v xs ys head k)
      (λ h' k'. run_calls-Holds h' rest k')

list_create-Holds : (pl : Ptr) → Holds (list_create (λ a. none) pl) ((pl, 0) ∷ [])
unfolding list_create
list_create-Holds pl = record {
  ring = record { run = (write_here (λ a. none) pl _, tt); distinct = (refl, tt) };
  only = λ a i. write_there (λ a. none) pl a _ (outside_cons a pl 0 [] i).0;
}

-- From a list that `ListCreate` makes in an empty heap, whatever calls of `ListInsert` and `ListDelete`
-- are made on nodes that are in the list, with addresses for new nodes that are not, and without
-- deleting the head: no call uses memory that is not allocated, and they leave a heap that holds just
-- the nodes of the list that the same insertions and removals make, linked both ways in a ring.
pub run_calls-list_create :
    (pl : Ptr) (calls : List Call) (ys : Cells)
    → ListCalls calls ((pl, 0) ∷ []) ys
    → (h : Heap) × (run_calls calls (list_create (λ a. none) pl) ≡ some h) × Holds h ys
run_calls-list_create pl calls ys made =
    run_calls-Holds (list_create (λ a. none) pl) made (list_create-Holds pl)

-- The loop of `ListDeleteAll`.
next_differs : (h : Heap) (pl v m u : Ptr) (xs : Cells) → Holds h ((pl, v) ∷ (m, u) ∷ xs) → m ≢ pl
next_differs h pl v m u xs k e = (outside_cons pl m u xs k.ring.distinct.0).0 (sym e)

abbrev pub data_of : Cells → List Ptr
data_of [] = []
data_of ((x, v) ∷ xs) = v ∷ data_of xs

delete_from_all :
    (xs : Cells) (h : Heap) (pl v : Ptr) (fuel : ℕ) (freed : List Ptr)
    → length xs ≤ fuel
    → Holds h ((pl, v) ∷ xs)
    → (h' : Heap) × (delete_from fuel h pl (first xs pl) freed ≡ some (h', freed ++ data_of xs))
      × Holds h' ((pl, v) ∷ [])
unfolding delete_from
delete_from_all [] h pl v zero freed l k =
    let t : (pl == pl) ≡ true = ground arith in (h, rw (t, delete_from, append-nil freed) refl, k)
delete_from_all [] h pl v (suc fuel) freed l k =
    let t : (pl == pl) ≡ true = ground arith in (h, rw (t, delete_from, append-nil freed) refl, k)
delete_from_all ((m, u) ∷ xs) h pl v zero freed l k = absurd (omega arith)
delete_from_all ((m, u) ∷ xs) h pl v (suc fuel) freed l k =
    let ne = next_differs h pl v m u xs k in
    let t : (m == pl) ≡ false = ground arith in
    let (h1, e, k1) = delete_inside h m u [] xs (pl, v) k in
    let (h', e', k') = delete_from_all xs h1 pl v fuel (freed ++ (u ∷ [])) (omega arith) k1 in
    (
      h',
      rw (t, delete_from, k.ring.run.1.0, e)
          (e' ∙ ap (λ l. some (h', l)) (append_assoc freed (u ∷ []) (data_of xs))),
      k',
    )

-- On a heap that holds a ring of nodes, `ListDeleteAll` on one of them ends, with as many rounds as
-- there are other nodes: it passes the data of the others to `g_free`, in their order, frees them, and
-- leaves the node alone in its ring, which `ListEmpty` then finds empty; before, `ListEmpty` finds it
-- empty exactly when there is no other.
pub list_delete_all_lem :
    (h : Heap) (pl v fuel : ℕ) (xs : Cells)
    → length xs ≤ fuel
    → Holds h ((pl, v) ∷ xs)
    → (h' : Heap) × (list_delete_all fuel h pl ≡ some (h', data_of xs))
      × Holds h' ((pl, v) ∷ [])
      × (list_empty h' pl ≡ some true)
      × (list_empty h pl ≡ some (length xs == 0))
unfolding list_delete_all list_empty
list_delete_all_lem h pl v fuel xs l k =
    let (h', e, k') = delete_from_all xs h pl v fuel [] l k in
    let t : (pl == pl) ≡ true = ground arith in
    (h', rw k.ring.run.0 e, k', rw (k'.ring.run.0, t) refl, rw k.ring.run.0 (ap some (tests xs k)))
  where
    tests :
        (xs : Cells)
        → Holds h ((pl, v) ∷ xs)
        → ((first xs pl == pl) && (last pl xs == pl)) ≡ (length xs == 0)
    tests [] k = ground arith
    tests ((m, u) ∷ xs) k =
        let ne = next_differs h pl v m u xs k in
        let s : (m == pl) ≡ false = ground arith in rw s (ground arith)
