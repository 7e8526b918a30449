-- ===== src/Cache/Create.antt =====
-- Creating and resizing the cache of evaluations: engine-core/lib/cache.c `CacheCreate`, `CacheResize`,
-- and engine-core/eval.c `EvalCacheResize`. `malloc` is a parameter: for a count of
-- nodes it gives an array of any contents, or `none` for a null pointer.
pub mod Size
pub mod Resize
mod Examples
use Prim.Native.Nat.{bit_and}
use gnubg_android.Base.{
  ℕ, zero, suc, ◌+◌, ◌-◌, ◌*◌, ◌/◌, ◌^◌, Option, none, some, ltb, ◌==◌, if◌then◌else◌,
}
use gnubg_android.Base.Int.{ℤ, pos, negsuc, is_neg, pos_part}
use gnubg_android.Board.{u32}
use gnubg_android.Cache.{CacheNode, EvalCache, cache_flush}

-- `x - 1` of an unsigned int.
abbrev pub pred_u32 : ℕ → ℕ
pred_u32 x = u32 (x + (2 ^ 32 - 1))

-- The value of an unsigned int as an int.
abbrev pub int_of : ℕ → ℤ
int_of x = if ltb x (2 ^ 31) then pos x else negsuc (2 ^ 32 - 1 - x)

-- The loop that clears the lowest bit while more than one is set. It ends before the fuel `s`.
unfoldable pub clear_lowest : ℕ → ℕ → ℕ
clear_lowest zero s = s
clear_lowest (suc fuel) s =
    let r = bit_and s (pred_u32 s) in let rest = clear_lowest fuel r in if r == 0 then s else rest

-- `pc->size`, for a size that is asked for.
unfoldable pub cache_size : ℕ → ℕ
cache_size asked =
    let s = if asked == 1 then 2 else asked in
    let p = clear_lowest s s in if ltb p s then u32 (2 * p) else p

-- What is left in `*pc`, or `none` for -1.
unfoldable pub cache_create :
    {V : Type 0} → (ℕ → Option (ℕ → CacheNode V)) → ℕ → Option (EvalCache V)
cache_create malloc s =
    if ltb (2 ^ 31) s
    then none
    else let size = cache_size s in
      elim (malloc (size / 2)) [
        | none ↦ none
        | some entries ↦ some (
            cache_flush
              (record { entries = entries; size = size; hash_mask = pred_u32 (size / 2) }))
      ]

unfoldable pub cache_resize :
    {V : Type 0} → (ℕ → Option (ℕ → CacheNode V)) → EvalCache V → ℕ → EvalCache V × ℤ
cache_resize malloc pc c_new =
    if c_new == pc.size then (pc, int_of pc.size) else elim (cache_create malloc c_new) [
      | none ↦ (pc, negsuc 0)
      | some new_cache ↦ (new_cache, int_of new_cache.size)
    ]

-- The globals `cEval` and `cCache` of eval.c.
pub record EvalCaches (V : Type 0) : Type 0 where
  pub c_eval : EvalCache V
  pub c_cache : ℕ

unfoldable pub eval_cache_resize :
    {V : Type 0} → (ℕ → Option (ℕ → CacheNode V)) → EvalCaches V → ℕ → EvalCaches V × ℤ
eval_cache_resize malloc g c_new =
    let (pc, c_actual) = cache_resize malloc g.c_eval c_new in
    if is_neg c_actual
    then (record g { c_eval = pc }, negsuc 0)
    else (record { c_eval = pc; c_cache = pos_part c_actual }, c_actual)
