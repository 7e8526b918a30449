-- ===== src/Cache/Examples.antt =====
-- A small cache, and the theorems about it at concrete calls.
use gnubg_android.Base.{ℕ, ◌+◌, ◌≡◌, refl, some, List, [], ◌∷◌, arith}
use gnubg_android.Position.Key.{PositionKey}
use gnubg_android.Cache.{
  CacheNodeDetail, EvalCache, hash_of, get_hash_key, same_entry, cache_lookup, cache_add,
  cache_flush, CacheOp, lookup, add, flush, run,
}
use gnubg_android.Cache.Hits.{cache_lookup_right}

abbrev key : ℕ → PositionKey
key n = record { w0 = n; w1 = 0; w2 = 0; w3 = 0; w4 = 0; w5 = 0; w6 = 0 }

-- What is stored here: the first word and the context added up.
abbrev value : PositionKey → ℕ → ℕ
value k context = k.w0 + context

abbrev entry : ℕ → CacheNodeDetail ℕ
entry n = record { key = key n; n_eval_context = 7; ar = n + 7 }

-- Eight entries of any contents.
abbrev some_cache : EvalCache ℕ
some_cache = record {
  entries = λ i. record { nd_primary = record (entry 3) { ar = 0 }; nd_secondary = entry i };
  size = 8;
  hash_mask = 3;
}

abbrev calls : List (CacheOp ℕ)
calls =
    lookup (entry 3)
    ∷ add (entry 3) (get_hash_key 3 (entry 3))
    ∷ flush
    ∷ add (entry 5) (get_hash_key 3 (entry 5))
    ∷ add (entry 6) (get_hash_key 3 (entry 5))
    ∷ []

hit :
    (cache_lookup (run (cache_flush some_cache) calls) (record (entry 5) { ar = 0 })).ar_out
    ≡ some 12
unfolding cache_lookup cache_add cache_flush same_entry get_hash_key hash_of
hit = refl

cache_lookup_right_example : 12 ≡ value (key 5) 7
cache_lookup_right_example =
    cache_lookup_right value some_cache calls (record (entry 5) { ar = 0 }) 12 (omega arith)
      (refl, (refl, (refl, tt))) (λ e. absurd (omega arith)) hit
