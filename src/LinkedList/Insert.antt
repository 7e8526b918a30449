-- ===== src/LinkedList/Insert.antt =====
-- What `ListInsert` of engine-core/lib/list.c does to a ring.
use gnubg_android.Base.{◌≡◌, ◌≢◌, refl, sym, subst, none, some, [], ◌∷◌, ◌++◌, arith}
use gnubg_android.LinkedList.{Ptr, Node, Heap, write, list_insert}
use gnubg_android.LinkedList.Rings.{
  Cells, first, last, Run, Ring, Run-append, frame, first-append, last-append, outside_cons,
  outside_append, outside_snoc,
}
use gnubg_android.LinkedList.Steps.{
  node, write_here, write_there, thrice, read_third, read_second, read_first, read_other, unused,
  other_than, Ends, split_last, close, snoc-Distinct, ring_of, Leads, alone, ends,
}

-- Before a node that is alone,
insert_alone :
    (h : Heap) (pl p new v : Ptr)
    → pl ≢ new
    → h pl ≡ some (node pl pl v)
    → list_insert h pl p new
      ≡ some (
          write
            (write (write h new (some (node pl pl p))) pl (some (node new pl v)))
            pl
            (some (node new new v)))
unfolding list_insert
insert_alone h pl p new v ne e =
    rw
      (
        e,
        write_there h new pl (some (node pl pl p)) ne,
        e,
        write_there (write h new (some (node pl pl p))) pl new (some (node new pl v))
            (λ q. ne (sym q)),
        write_here h new (some (node pl pl p)),
        write_here (write h new (some (node pl pl p))) pl (some (node new pl v)),
      )
      refl

-- and before one that another precedes.
insert_between :
    (h : Heap) (pl p new v l f k w : Ptr)
    → pl ≢ new
    → l ≢ new
    → l ≢ pl
    → h pl ≡ some (node l f v)
    → h l ≡ some (node k pl w)
    → list_insert h pl p new
      ≡ some (
          write
            (write (write h new (some (node l pl p))) pl (some (node new f v)))
            l
            (some (node k new w)))
unfolding list_insert
insert_between h pl p new v l f k w ne nl nlp e d =
    rw
      (
        e,
        write_there h new pl (some (node l pl p)) ne,
        e,
        write_there (write h new (some (node l pl p))) pl new (some (node new f v))
            (λ q. ne (sym q)),
        write_here h new (some (node l pl p)),
        write_there (write h new (some (node l pl p))) pl l (some (node new f v)) nlp,
        write_there h new l (some (node l pl p)) nl,
        d,
      )
      refl

module _ (h : Heap) (pl p new v : Ptr) (free : h new ≡ none) where
  -- Before the first node of a ring, which is behind the last.
  abbrev Inserts : Cells → Type 0
  Inserts xs = Leads h (list_insert h pl p new) ((pl, v) ∷ xs) (((pl, v) ∷ xs) ++ ((new, p) ∷ []))

  differs : (a : Ptr) (n : Node) → h a ≡ some n → a ≢ new
  differs a n e q = let clash = subst (λ k. h k ≡ none) (sym q) free in ground (arith, e, clash)

  insert_to_one : Ring h ((pl, v) ∷ []) → Inserts []
  insert_to_one r =
      let ne = differs pl _ r.run.0 in
      let new_node = some (node pl pl p) in
      let half = some (node new pl v) in
      let full = some (node new new v) in
      record {
        h' = thrice h new pl pl new_node half full;
        result = insert_alone h pl p new v ne r.run.0;
        ring = ring_of _ pl v [] new p (record {
          at_pl = read_third h new pl pl new_node half full;
          between = tt;
          at_l = read_first h new pl pl new_node half full (λ q. ne (sym q)) (λ q. ne (sym q));
          pl_l = ne;
          pl_out = refl;
          l_out = refl;
          apart = tt;
        });
        rest = λ a i j.
            read_other h new pl pl new_node half full a (λ q. ground (arith, j, q))
              (λ q. ground (arith, i, q)) (λ q. ground (arith, i, q));
        freed = λ a i j. absurd (ground (arith, i, j));
      }

  insert_to_more :
      (ys : Cells) (l w : Ptr)
      → Ring h ((pl, v) ∷ (ys ++ ((l, w) ∷ [])))
      → Inserts (ys ++ ((l, w) ∷ []))
  insert_to_more ys l w r =
      let c = close h pl v ys l w r in
      let ne = differs pl _ c.at_pl in
      let nl = differs l _ c.at_l in
      let no_new = unused h pl ys l new c.between free in
      let new_node = some (node l pl p) in
      let pl_node = some (node new (first ys l) v) in
      let l_node = some (node (last pl ys) new w) in
      let h' = thrice h new pl l new_node pl_node l_node in
      let kept : Run h' pl ys l = frame h h' pl ys l c.between (λ a i.
        read_other h new pl l new_node pl_node l_node a (other_than ys a new i no_new)
          (other_than ys a pl i c.pl_out) (other_than ys a l i c.l_out)) in
      record {
        h' = h';
        result =
            insert_between h pl p new v l (first ys l) (last pl ys) w ne nl (λ q. c.pl_l (sym q))
              c.at_pl c.at_l;
        ring = ring_of h' pl v (ys ++ ((l, w) ∷ [])) new p (record {
          at_pl =
              rw (first-append ys ((l, w) ∷ []) new)
                (read_second h new pl l new_node pl_node l_node c.pl_l);
          between =
              Run-append h' pl ys ((l, w) ∷ []) new kept
                (read_third h new pl l new_node pl_node l_node, tt);
          at_l =
              rw (last-append pl ys ((l, w) ∷ []))
                (read_first h new pl l new_node pl_node l_node (λ q. ne (sym q)) (λ q. nl (sym q)));
          pl_l = ne;
          pl_out = outside_snoc pl ys l w c.pl_out c.pl_l;
          l_out = outside_snoc new ys l w no_new (λ q. nl (sym q));
          apart = snoc-Distinct ys l w c.l_out c.apart;
        });
        rest = λ a i j.
            let (not_pl, out) = outside_cons a pl v (ys ++ ((l, w) ∷ [])) i in
            let (_, out_l) = outside_append a ys ((l, w) ∷ []) out in
            let (_, out_all) = outside_cons a pl v ((ys ++ ((l, w) ∷ [])) ++ ((new, p) ∷ [])) j in
            let (_, out_new) = outside_append a (ys ++ ((l, w) ∷ [])) ((new, p) ∷ []) out_all in
            read_other h new pl l new_node pl_node l_node a (outside_cons a new p [] out_new).0
              not_pl (outside_cons a l w [] out_l).0;
        freed = λ a i j. absurd (
            let (_, out_all) = outside_cons a pl v ((ys ++ ((l, w) ∷ [])) ++ ((new, p) ∷ [])) j in
            let (out, _) = outside_append a (ys ++ ((l, w) ∷ [])) ((new, p) ∷ []) out_all in
            ground (arith, i, j, out));
      }

  pub insert_first : (xs : Cells) → Ring h ((pl, v) ∷ xs) → Inserts xs
  insert_first xs r = go (split_last xs) r
    where
      go : {xs : Cells} → Ends xs → Ring h ((pl, v) ∷ xs) → Inserts xs
      go alone r = insert_to_one r
      go (ends ys l w) r = insert_to_more ys l w r
