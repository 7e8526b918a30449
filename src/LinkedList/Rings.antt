-- ===== src/LinkedList/Rings.antt =====
-- Rings of nodes in a heap, for engine-core/lib/list.c.
use mathlib.Core.List.{append-nil}
use gnubg_android.Base.{
  ◌≡◌, ◌≢◌, refl, sym, ◌∙◌, subst, Bool, Bool-cases, true, false, ◌||◌, some, List, [], ◌∷◌, ◌++◌,
  ◌==◌, inl, inr, ℕ_discrete, arith,
}
use gnubg_android.LinkedList.{Ptr, Heap}

-- What a ring stands for: the address and the data of each node, in order.
abbrev pub Cells : Type 0
Cells = List (Ptr × Ptr)

abbrev pub has : Ptr → Cells → Bool
has a [] = false
has a ((x, _) ∷ xs) = (a == x) || has a xs

-- The first address of a run of nodes that `end` follows, and the last of one that follows `start`.
abbrev pub first : Cells → Ptr → Ptr
first [] end = end
first ((x, _) ∷ xs) end = x

abbrev pub last : Ptr → Cells → Ptr
last start [] = start
last start ((x, _) ∷ xs) = last x xs

-- The nodes of a run, between `start` and `end`.
abbrev pub Run : Heap → Ptr → Cells → Ptr → Type 0
Run h start [] end = Unit {0}
Run h start ((x, v) ∷ xs) end =
    (h x ≡ some (record { pl_prev = start; pl_next = first xs end; p = v })) × Run h x xs end

abbrev pub Distinct : Cells → Type 0
Distinct [] = Unit {0}
Distinct ((x, _) ∷ xs) = (has x xs ≡ false) × Distinct xs

-- A ring of distinct nodes.
pub record Ring (h : Heap) (xs : Cells) : Type 0 where
  pub run : Run h (last 0 xs) xs (first xs 0)
  pub distinct : Distinct xs

pub first-append : (xs ys : Cells) (end : Ptr) → first (xs ++ ys) end ≡ first xs (first ys end)
first-append [] ys end = refl
first-append (x ∷ xs) ys end = refl

pub last-append : (start : Ptr) (xs ys : Cells) → last start (xs ++ ys) ≡ last (last start xs) ys
last-append start [] ys = refl
last-append start ((x, _) ∷ xs) ys = last-append x xs ys

pub has-append : (a : Ptr) (xs ys : Cells) → has a (xs ++ ys) ≡ (has a xs || has a ys)
has-append a [] ys = refl
has-append a ((x, _) ∷ xs) ys = rw (has-append a xs ys) (ground arith)

-- What is outside.
pub outside_cons :
    (a x v : Ptr) (xs : Cells) → has a ((x, v) ∷ xs) ≡ false → (a ≢ x) × (has a xs ≡ false)
outside_cons a x v xs h = ground arith

pub outside_append :
    (a : Ptr) (xs ys : Cells) → has a (xs ++ ys) ≡ false → (has a xs ≡ false) × (has a ys ≡ false)
outside_append a xs ys h = let both = sym (has-append a xs ys) ∙ h in ground (arith, both)

pub outside_snoc :
    (a : Ptr) (ys : Cells) (l w : Ptr)
    → has a ys ≡ false
    → a ≢ l
    → has a (ys ++ ((l, w) ∷ [])) ≡ false
outside_snoc a ys l w out ne = has-append a ys ((l, w) ∷ []) ∙ ground arith

pub Run-append :
    (h : Heap) (start : Ptr) (xs ys : Cells) (end : Ptr)
    → Run h start xs (first ys end)
    → Run h (last start xs) ys end
    → Run h start (xs ++ ys) end
Run-append h start [] ys end r s = s
Run-append h start ((x, v) ∷ xs) ys end r s =
    (rw (first-append xs ys end) r.0, Run-append h x xs ys end r.1 s)

pub Run-split :
    (h : Heap) (start : Ptr) (xs ys : Cells) (end : Ptr)
    → Run h start (xs ++ ys) end
    → Run h start xs (first ys end) × Run h (last start xs) ys end
Run-split h start [] ys end r = (tt, r)
Run-split h start ((x, v) ∷ xs) ys end r =
    let (a, b) = Run-split h x xs ys end r.1 in ((rw (← first-append xs ys end) r.0, a), b)

-- A run survives a change of the heap elsewhere.
pub frame :
    (h g : Heap) (start : Ptr) (xs : Cells) (end : Ptr)
    → Run h start xs end
    → ((a : Ptr) → has a xs ≡ true → g a ≡ h a)
    → Run g start xs end
frame h g start [] end r same = tt
frame h g start ((x, v) ∷ xs) end r same =
    (same x (ground arith) ∙ r.0, frame h g x xs end r.1 (λ a i. same a (ground arith)))

pub Distinct-append :
    (xs ys : Cells)
    → Distinct xs
    → Distinct ys
    → ((a : Ptr) → has a xs ≡ true → has a ys ≡ false)
    → Distinct (xs ++ ys)
Distinct-append [] ys d e apart = e
Distinct-append ((x, v) ∷ xs) ys d e apart = (
  rw (has-append x xs ys, d.0) (apart x (ground arith)),
  Distinct-append xs ys d.1 e (λ a i. apart a (ground arith)),
)

pub Distinct-split :
    (xs ys : Cells)
    → Distinct (xs ++ ys)
    → Distinct xs × Distinct ys × ((a : Ptr) → has a xs ≡ true → has a ys ≡ false)
Distinct-split [] ys d = (tt, d, λ a i. ground (arith, i))
Distinct-split ((x, v) ∷ xs) ys d =
    let (e, f, apart) = Distinct-split xs ys d.1 in
    let out = sym (has-append x xs ys) ∙ d.0 in
    (
      (ground (arith, out), e),
      f,
      λ a i. elim (ℕ_discrete a x) [
        | yes e ↦ rw e (ground (arith, out))
        | no ne ↦ apart a (ground (arith, i))
      ],
    )

-- A ring may begin at any of its nodes.
pub rotate : (h : Heap) (xs ys : Cells) → Ring h (xs ++ ys) → Ring h (ys ++ xs)
rotate h [] ys r = subst (Ring h) (sym (append-nil ys)) r
rotate h (x ∷ xs) [] r = subst (Ring h) (append-nil (x ∷ xs)) r
rotate h ((x, v) ∷ xs) ((y, w) ∷ ys) r =
    let (a, b) = Run-split h _ ((x, v) ∷ xs) ((y, w) ∷ ys) x r.run in
    let (d, e, apart) = Distinct-split ((x, v) ∷ xs) ((y, w) ∷ ys) r.distinct in
    record {
      run =
          Run-append h (last 0 (((y, w) ∷ ys) ++ ((x, v) ∷ xs))) ((y, w) ∷ ys) ((x, v) ∷ xs) y
            (subst (λ q. Run h q ((y, w) ∷ ys) x) (sym (last-append y ys ((x, v) ∷ xs))) b)
            (subst (λ q. Run h q ((x, v) ∷ xs) y) (last-append x xs ((y, w) ∷ ys)) a);
      distinct = Distinct-append ((y, w) ∷ ys) ((x, v) ∷ xs) e d (λ k i.
          elim (Bool-cases (has k ((x, v) ∷ xs))) [
            | inl inside ↦ absurd (ground (arith, i, apart k inside))
            | inr outside ↦ outside
          ]);
    }
