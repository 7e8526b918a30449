-- ===== src/Cache/Create/Resize.antt =====
-- What resizing the cache leaves, engine-core/lib/cache.c `CacheResize` and engine-core/eval.c
-- `EvalCacheResize`.
use mathlib.Core.Option
use native.Mathlib.Nat.{pow-suc}
use gnubg_android.Base.{
  ℕ, suc, ◌*◌, ◌/◌, ◌^◌, ◌≤◌, ◌<◌, ◌≡◌, refl, ◌∙◌, ap, ◌⊎◌, inl, inr, true, false, Option, none,
  some, ltb, ◌==◌, arith, Bool-cases,
}
use gnubg_android.Base.Int.{ℤ, pos, negsuc}
use gnubg_android.Base.Order.{power_le}
use gnubg_android.Cache.{CacheNode, EvalCache, no_word, cache_flush}
use gnubg_android.Cache.Create.{
  pred_u32, cache_size, cache_create, cache_resize, EvalCaches, eval_cache_resize,
}
use gnubg_android.Cache.Create.Size.{RoundedUp, pred_u32_positive, cache_size-RoundedUp}

module _ {V : Type 0} where
  -- A cache made for `asked` entries: no node holds a position, and every index is within the array.
  pub record Fresh (asked : ℕ) (pc : EvalCache V) : Type 0 where
    pub rounded : RoundedUp asked pc.size
    pub mask : suc pc.hash_mask ≡ pc.size / 2
    pub primary : (i : ℕ) → i < pc.size / 2 → (pc.entries i).nd_primary.key.w0 ≡ no_word
    pub secondary : (i : ℕ) → i < pc.size / 2 → (pc.entries i).nd_secondary.key.w0 ≡ no_word

  -- The globals after a resize to `asked` entries that returns a size.
  pub record Resized (asked : ℕ) (g g' : EvalCaches V) (code : ℤ) : Type 0 where
    pub reported : code ≡ pos g'.c_cache
    pub counted : g'.c_cache ≡ g'.c_eval.size
    pub cache : ((g'.c_eval ≡ g.c_eval) × (asked ≡ g.c_eval.size)) ⊎ Fresh asked g'.c_eval

  module _ (malloc : ℕ → Option (ℕ → CacheNode V)) where
    made : (s : ℕ) (entries : ℕ → CacheNode V) → EvalCache V
    made s entries =
        cache_flush (record {
          entries = entries;
          size = cache_size s;
          hash_mask = pred_u32 (cache_size s / 2);
        })

    made-Fresh : (s : ℕ) (entries : ℕ → CacheNode V) → 0 < s → s ≤ 2 ^ 31 → Fresh s (made s entries)
    unfolding made cache_flush
    made-Fresh s entries h l =
        let up = cache_size-RoundedUp s h l in
        let p : 2 ^ suc up.exponent ≡ 2 ^ up.exponent * 2 = pow-suc 2 up.exponent in
        let e = up.power in
        let m = up.least 30 l in
        let one = power_le 0 up.exponent (omega arith) in
        record {
          rounded = up;
          mask =
              ap suc (pred_u32_positive (cache_size s / 2) (omega arith) (omega arith))
              ∙ omega arith;
          primary = λ i k. let t : ltb i (cache_size s / 2) ≡ true = ground arith in rw t refl;
          secondary = λ i k. let t : ltb i (cache_size s / 2) ≡ true = ground arith in rw t refl;
        }

    created :
        (s : ℕ) (x : Option (ℕ → CacheNode V))
        → s ≤ 2 ^ 31
        → malloc (cache_size s / 2) ≡ x
        → cache_create malloc s ≡ Option.map (made s) x
    unfolding cache_create made
    created s none l e = let t : ltb (2 ^ 31) s ≡ false = ground arith in rw (t, e) refl
    created s (some entries) l e = let t : ltb (2 ^ 31) s ≡ false = ground arith in rw (t, e) refl

    -- What a resize gives: nothing changes, and the code is -1, only when no array is to be had.
    abbrev pub Outcome : EvalCaches V → ℕ → EvalCaches V × ℤ → Type 0
    Outcome g asked (g', code) =
        ((malloc (cache_size asked / 2) ≡ none) × (g' ≡ g) × (code ≡ negsuc 0))
        ⊎ Resized asked g g' code

    resized_new :
        (g : EvalCaches V) (asked : ℕ) (x : Option (ℕ → CacheNode V))
        → 0 < asked
        → asked ≤ 2 ^ 30
        → (asked == g.c_eval.size) ≡ false
        → malloc (cache_size asked / 2) ≡ x
        → Outcome g asked (eval_cache_resize malloc g asked)
    unfolding eval_cache_resize cache_resize
    resized_new g asked none h l new e =
        rw (new, created asked none (omega arith) e) (inl (e, refl, refl))
    resized_new g asked (some entries) h l new e =
        let fresh = made-Fresh asked entries h (omega arith) in
        let m = fresh.rounded.least 29 l in
        let t : ltb (made asked entries).size (2 ^ 31) ≡ true = ground arith in
        rw (new, created asked (some entries) (omega arith) e)
          (rw t (inr (record { reported = refl; counted = refl; cache = inr fresh })))

    -- Resizing the cache to 1 to 2^30 entries either returns -1 and changes nothing, for want of
    -- memory, or returns the number of entries that the cache then has, which is also put down in
    -- `cCache`: the cache is the old one if that number was asked for, and else a new one without
    -- positions, whose size is the least power of two, from 2, that is not below what was asked for,
    -- and whose hash indices all are within its array.
    pub eval_cache_resize-Outcome :
        (g : EvalCaches V) (asked : ℕ)
        → 0 < asked
        → asked ≤ 2 ^ 30
        → Outcome g asked (eval_cache_resize malloc g asked)
    unfolding eval_cache_resize cache_resize
    eval_cache_resize-Outcome g asked h l = elim (Bool-cases (asked == g.c_eval.size)) [
      | inl same ↦
          let t : ltb g.c_eval.size (2 ^ 31) ≡ true = ground arith in
          let e : asked ≡ g.c_eval.size = ground arith in
          rw same (rw t (inr (record { reported = refl; counted = refl; cache = inl (refl, e) })))
      | inr new ↦ resized_new g asked (malloc (cache_size asked / 2)) h l new refl
    ]
