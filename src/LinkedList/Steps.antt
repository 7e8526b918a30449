-- ===== src/LinkedList/Steps.antt =====
-- Rings of engine-core/lib/list.c and writes of their nodes.
use gnubg_android.Base.{
  ◌≡◌, ◌≢◌, refl, sym, ◌∙◌, ap₂, subst, Bool-cases, true, false, Option, none, some, [], ◌∷◌, ◌++◌,
  inl, inr, ℕ_discrete, arith,
}
use gnubg_android.LinkedList.{Ptr, Node, Heap, write}
use gnubg_android.LinkedList.Rings.{
  Cells, has, first, last, Run, Ring, Distinct, has-append, Run-append, Run-split, Distinct-append,
  Distinct-split, first-append, last-append, outside_snoc,
}

abbrev pub node : Ptr → Ptr → Ptr → Node
node prev next p = record { pl_prev = prev; pl_next = next; p = p }

pub write_here : (h : Heap) (a : Ptr) (n : Option Node) → write h a n a ≡ n
unfolding write
write_here h a n = ground arith

pub write_there : (h : Heap) (a x : Ptr) (n : Option Node) → x ≢ a → write h a n x ≡ h x
unfolding write
write_there h a x n ne = ground arith

-- Three writes.
module _ (h : Heap) (x y z : Ptr) (l m n : Option Node) where
  abbrev pub thrice : Heap
  thrice = write (write (write h x l) y m) z n

  pub read_third : thrice z ≡ n
  read_third = write_here (write (write h x l) y m) z n

  pub read_second : y ≢ z → thrice y ≡ m
  read_second yz = write_there (write (write h x l) y m) z y n yz ∙ write_here (write h x l) y m

  pub read_first : x ≢ y → x ≢ z → thrice x ≡ l
  read_first xy xz =
      write_there (write (write h x l) y m) z x n xz
      ∙ (write_there (write h x l) y x m xy ∙ write_here h x l)

  pub read_other : (a : Ptr) → a ≢ x → a ≢ y → a ≢ z → thrice a ≡ h a
  read_other a ax ay az =
      write_there (write (write h x l) y m) z a n az
      ∙ (write_there (write h x l) y a m ay ∙ write_there h x a l ax)

-- Unused memory holds no node of a run.
pub unused :
    (h : Heap) (start : Ptr) (xs : Cells) (end a : Ptr)
    → Run h start xs end
    → h a ≡ none
    → has a xs ≡ false
unused h start [] end a r e = refl
unused h start ((x, v) ∷ xs) end a r e = elim (ℕ_discrete a x) [
  | yes same ↦ absurd (let clash = subst (λ k. h k ≡ none) same e in ground (arith, r.0, clash))
  | no other ↦ ground (arith, unused h x xs end a r.1 e)
]

-- A node of a run is none outside it.
pub other_than : (xs : Cells) (a x : Ptr) → has a xs ≡ true → has x xs ≡ false → a ≢ x
other_than xs a x i out e =
    let inside = subst (λ k. has k xs ≡ true) e i in ground (arith, inside, out)

-- A change of the ring `xs` into the ring `ys`, with the nodes that are left out freed and the
-- rest of the heap left alone.
pub record Leads (h : Heap) (r : Option Heap) (xs ys : Cells) : Type 0 where
  pub h' : Heap
  pub result : r ≡ some h'
  pub ring : Ring h' ys
  pub rest : (a : Ptr) → has a xs ≡ false → has a ys ≡ false → h' a ≡ h a
  pub freed : (a : Ptr) → has a xs ≡ true → has a ys ≡ false → h' a ≡ none

-- The nodes but the last.
pub data Ends : Cells → Type 0 where
  alone : Ends []
  ends : (ys : Cells) (l w : Ptr) → Ends (ys ++ ((l, w) ∷ []))

one_longer : (x v : Ptr) {xs : Cells} → Ends xs → Ends ((x, v) ∷ xs)
one_longer x v alone = ends [] x v
one_longer x v (ends ys l w) = ends ((x, v) ∷ ys) l w

pub split_last : (xs : Cells) → Ends xs
split_last [] = alone
split_last ((x, v) ∷ xs) = one_longer x v (split_last xs)

-- What is known of a ring that begins at `pl` and ends at `l`.
pub record Closed (h : Heap) (pl v : Ptr) (ys : Cells) (l w : Ptr) : Type 0 where
  pub at_pl : h pl ≡ some (node l (first ys l) v)
  pub between : Run h pl ys l
  pub at_l : h l ≡ some (node (last pl ys) pl w)
  pub pl_l : pl ≢ l
  pub pl_out : has pl ys ≡ false
  pub l_out : has l ys ≡ false
  pub apart : Distinct ys

pub close :
    (h : Heap) (pl v : Ptr) (ys : Cells) (l w : Ptr)
    → Ring h ((pl, v) ∷ (ys ++ ((l, w) ∷ [])))
    → Closed h pl v ys l w
close h pl v ys l w r =
    let (a, b) = Run-split h pl ys ((l, w) ∷ []) pl r.run.1 in
    let (d, e, f) = Distinct-split ys ((l, w) ∷ []) r.distinct.1 in
    let out = sym (has-append pl ys ((l, w) ∷ [])) ∙ r.distinct.0 in
    record {
      at_pl =
          r.run.0
          ∙ ap₂ (λ a b. some (node a b v)) (last-append pl ys ((l, w) ∷ []))
              (first-append ys ((l, w) ∷ []) pl);
      between = a;
      at_l = b.0;
      pl_l = λ q. ground (arith, out, q);
      pl_out = ground (arith, out);
      l_out = elim (Bool-cases (has l ys)) [
        | inl inside ↦ absurd (ground (arith, f l inside))
        | inr outside ↦ outside
      ];
      apart = d;
    }

-- The other way.
pub snoc-Distinct :
    (ys : Cells) (l w : Ptr) → has l ys ≡ false → Distinct ys → Distinct (ys ++ ((l, w) ∷ []))
snoc-Distinct ys l w out d =
    Distinct-append ys ((l, w) ∷ []) d (refl, tt)
      (λ a i. elim (ℕ_discrete a l) [
        | yes e ↦
            absurd (let inside = subst (λ k. has k ys ≡ true) e i in ground (arith, out, inside))
        | no ne ↦ ground arith
      ])

pub ring_of :
    (h : Heap) (pl v : Ptr) (ys : Cells) (l w : Ptr)
    → Closed h pl v ys l w
    → Ring h ((pl, v) ∷ (ys ++ ((l, w) ∷ [])))
ring_of h pl v ys l w c = record {
  run = (
    rw (last-append pl ys ((l, w) ∷ []), first-append ys ((l, w) ∷ []) pl) c.at_pl,
    Run-append h pl ys ((l, w) ∷ []) pl c.between (c.at_l, tt),
  );
  distinct = (outside_snoc pl ys l w c.pl_out c.pl_l, snoc-Distinct ys l w c.l_out c.apart);
}
