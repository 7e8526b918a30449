-- ===== src/Cache/Create/Examples.antt =====
-- Sizes of caches, and resizes with and without memory.
use gnubg_android.Base.{ℕ, ◌^◌, ◌≡◌, refl, Option, none, some, leb, if◌then◌else◌, arith}
use gnubg_android.Base.Int.{pos, negsuc}
use gnubg_android.Cache.{CacheNodeDetail, CacheNode, cache_flush}
use gnubg_android.Cache.Create.{
  clear_lowest, cache_size, cache_create, cache_resize, EvalCaches, eval_cache_resize,
}
use gnubg_android.Cache.Create.Resize.{Outcome, eval_cache_resize-Outcome}

sizes_1 : cache_size 1 ≡ 2
unfolding cache_size clear_lowest
sizes_1 = refl

sizes_100 : cache_size 100 ≡ 128
unfolding cache_size clear_lowest
sizes_100 = refl

sizes_4096 : cache_size 4096 ≡ 4096
unfolding cache_size clear_lowest
sizes_4096 = refl

abbrev detail : CacheNodeDetail ℕ
detail = record {
  key = record { w0 = 1; w1 = 0; w2 = 0; w3 = 0; w4 = 0; w5 = 0; w6 = 0 };
  n_eval_context = 0;
  ar = 0;
}

-- There is memory for 64 nodes.
abbrev small_heap : ℕ → Option (ℕ → CacheNode ℕ)
small_heap n =
    if leb n 64 then some (λ i. record { nd_primary = detail; nd_secondary = detail }) else none

abbrev caches : EvalCaches ℕ
caches = record {
  c_eval = record {
    entries = λ i. record { nd_primary = detail; nd_secondary = detail };
    size = 8;
    hash_mask = 3;
  };
  c_cache = 8;
}

resized_100 : (eval_cache_resize small_heap caches 100).1 ≡ pos 128
unfolding eval_cache_resize cache_resize cache_create cache_size clear_lowest cache_flush
resized_100 = refl

no_memory : eval_cache_resize small_heap caches 200 ≡ (caches, negsuc 0)
unfolding eval_cache_resize cache_resize cache_create cache_size clear_lowest
no_memory = refl

-- A new cache of 2 ^ 31 entries is in place, and the code is that of a failure.
abbrev large_heap : ℕ → Option (ℕ → CacheNode ℕ)
large_heap n = some (λ i. record { nd_primary = detail; nd_secondary = detail })

resized_too_far :
    let (g, code) = eval_cache_resize large_heap caches (2 ^ 31) in
    (g.c_eval.size ≡ 2 ^ 31) × (g.c_cache ≡ 8) × (code ≡ negsuc 0)
unfolding eval_cache_resize cache_resize cache_create cache_size clear_lowest cache_flush
resized_too_far = (refl, refl, refl)

eval_cache_resize-Outcome_example :
    Outcome small_heap caches 100 (eval_cache_resize small_heap caches 100)
eval_cache_resize-Outcome_example =
    eval_cache_resize-Outcome small_heap caches 100 (omega arith) (omega arith)
