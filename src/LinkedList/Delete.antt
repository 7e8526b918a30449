-- ===== src/LinkedList/Delete.antt =====
-- What `ListDelete` of engine-core/lib/list.c does to a ring.
use gnubg_android.Base.{◌≡◌, ◌≢◌, refl, sym, true, false, none, some, [], ◌∷◌, ◌++◌, arith}
use gnubg_android.LinkedList.{Ptr, Heap, write, list_delete}
use gnubg_android.LinkedList.Rings.{
  Cells, has, first, last, Run, Ring, frame, outside_cons, outside_append,
}
use gnubg_android.LinkedList.Steps.{
  node, write_here, write_there, thrice, read_third, read_second, read_first, read_other,
  other_than, Ends, split_last, close, ring_of, Leads, alone, ends,
}

-- A node out of two,
delete_of_two :
    (h : Heap) (pl m v w : Ptr)
    → pl ≢ m
    → h pl ≡ some (node m m v)
    → h m ≡ some (node pl pl w)
    → list_delete h pl
      ≡ some (write (write (write h m (some (node pl m w))) m (some (node m m w))) pl none)
unfolding list_delete
delete_of_two h pl m v w ne e d =
    rw (e, d, write_there h m pl (some (node pl m w)) ne, e, write_here h m (some (node pl m w)))
      refl

-- and one between two others.
delete_between :
    (h : Heap) (pl l m k f v u w : Ptr)
    → pl ≢ l
    → pl ≢ m
    → m ≢ l
    → h pl ≡ some (node l m v)
    → h l ≡ some (node k pl u)
    → h m ≡ some (node pl f w)
    → list_delete h pl
      ≡ some (write (write (write h l (some (node k m u))) m (some (node l f w))) pl none)
unfolding list_delete
delete_between h pl l m k f v u w nl nm ml e d c =
    rw
      (
        e,
        d,
        write_there h l pl (some (node k m u)) nl,
        e,
        write_there h l m (some (node k m u)) ml,
        c,
      )
      refl

-- A node that is not alone is taken out.
module _ (h : Heap) (pl v m u : Ptr) where
  abbrev Deletes : Cells → Type 0
  Deletes xs = Leads h (list_delete h pl) ((pl, v) ∷ (m, u) ∷ xs) ((m, u) ∷ xs)

  only_pl : (a : Ptr) (xs : Cells) → has a ((pl, v) ∷ xs) ≡ true → has a xs ≡ false → a ≡ pl
  only_pl a xs i j = ground (arith, i, j)

  delete_of_pair : Ring h ((pl, v) ∷ (m, u) ∷ []) → Deletes []
  delete_of_pair r =
      let ne = (outside_cons pl m u [] r.distinct.0).0 in
      let half = some (node pl m u) in
      let full = some (node m m u) in
      record {
        h' = thrice h m m pl half full none;
        result = delete_of_two h pl m v u ne r.run.0 r.run.1.0;
        ring = record {
          run = (read_second h m m pl half full none (λ q. ne (sym q)), tt);
          distinct = (refl, tt);
        };
        rest = λ a i j.
            let (not_pl, out) = outside_cons a pl v ((m, u) ∷ []) i in
            let (not_m, _) = outside_cons a m u [] out in
            read_other h m m pl half full none a not_m not_m not_pl;
        freed = λ a i j.
            let e : a ≡ pl = only_pl a ((m, u) ∷ []) i j in
            rw e (read_third h m m pl half full none);
      }

  delete_of_more :
      (ys : Cells) (l w : Ptr)
      → Ring h ((pl, v) ∷ (m, u) ∷ (ys ++ ((l, w) ∷ [])))
      → Deletes (ys ++ ((l, w) ∷ []))
  delete_of_more ys l w r =
      let c = close h pl v ((m, u) ∷ ys) l w r in
      let (pl_m, pl_ys) = outside_cons pl m u ys c.pl_out in
      let (l_m, l_ys) = outside_cons l m u ys c.l_out in
      let l_node = some (node (last m ys) m w) in
      let m_node = some (node l (first ys l) u) in
      let h' = thrice h l m pl l_node m_node none in
      let kept : Run h' m ys l = frame h h' m ys l c.between.1 (λ a i.
        read_other h l m pl l_node m_node none a (other_than ys a l i l_ys)
          (other_than ys a m i c.apart.0) (other_than ys a pl i pl_ys)) in
      record {
        h' = h';
        result =
            delete_between h pl l m (last m ys) (first ys l) v w u c.pl_l pl_m (λ q. l_m (sym q))
              c.at_pl c.at_l c.between.0;
        ring = ring_of h' m u ys l w (record {
          at_pl = read_second h l m pl l_node m_node none (λ q. pl_m (sym q));
          between = kept;
          at_l = read_first h l m pl l_node m_node none l_m (λ q. c.pl_l (sym q));
          pl_l = λ q. l_m (sym q);
          pl_out = c.apart.0;
          l_out = l_ys;
          apart = c.apart.1;
        });
        rest = λ a i j.
            let (not_pl, out) = outside_cons a pl v ((m, u) ∷ (ys ++ ((l, w) ∷ []))) i in
            let (not_m, out_l) = outside_cons a m u (ys ++ ((l, w) ∷ [])) out in
            let (_, out_last) = outside_append a ys ((l, w) ∷ []) out_l in
            read_other h l m pl l_node m_node none a (outside_cons a l w [] out_last).0 not_m
              not_pl;
        freed = λ a i j.
            let e : a ≡ pl = only_pl a ((m, u) ∷ (ys ++ ((l, w) ∷ []))) i j in
            rw e (read_third h l m pl l_node m_node none);
      }

  pub delete_first : (xs : Cells) → Ring h ((pl, v) ∷ (m, u) ∷ xs) → Deletes xs
  delete_first xs r = go (split_last xs) r
    where
      go : {xs : Cells} → Ends xs → Ring h ((pl, v) ∷ (m, u) ∷ xs) → Deletes xs
      go alone r = delete_of_pair r
      go (ends ys l w) r = delete_of_more ys l w r
