-- ===== src/Cache.antt =====
-- The cache of evaluations, engine-core/lib/cache.c `GetHashKey`, `CacheLookupNoLocking`,
-- `CacheFlush`, and cache.h `CacheAddNoLocking`. The variants with locks do the same between taking
-- and releasing the lock of an entry. The array of `size / 2` entries is a function of the
-- index. What is stored is of any type `V`, here for six floats.
pub mod Hits
pub mod Create
mod Examples
use Prim.Native.Nat.{bit_and, bit_or, bit_xor}
use gnubg_android.Base.{
  ℕ, zero, suc, ◌+◌, ◌-◌, ◌*◌, ◌/◌, ◌%◌, ◌^◌, Bool, true, false, ◌&&◌, Option, none, some, List, [],
  ◌∷◌, ltb, ◌==◌, if◌then◌else◌,
}
use gnubg_android.Board.{u32}
use gnubg_android.Position.Key.{PositionKey, equal_keys}

-- `cacheNodeDetail`; the context is the 32 bits of an int.
pub record CacheNodeDetail (V : Type 0) : Type 0 where
  pub key : PositionKey
  pub n_eval_context : ℕ
  pub ar : V

pub record CacheNode (V : Type 0) : Type 0 where
  pub nd_primary : CacheNodeDetail V
  pub nd_secondary : CacheNodeDetail V

pub record EvalCache (V : Type 0) : Type 0 where
  pub entries : ℕ → CacheNode V
  pub size : ℕ
  pub hash_mask : ℕ

-- `(x << n) | (x >> (32 - n))`.
abbrev rotate : ℕ → ℕ → ℕ
rotate n x = bit_or (u32 (x * 2 ^ n)) (x / 2 ^ (32 - n))

-- The multiplications of a word before it is mixed in, by 0xcc9e2d51 and 0x1b873593.
abbrev scramble : ℕ → ℕ
scramble k = u32 (rotate 15 (u32 (k * 3432918353)) * 461845907)

-- `hash = hash * 5 + 0xe6546b64` after the rotation.
abbrev stir : ℕ → ℕ
stir hash = u32 (rotate 13 hash * 5 + 3864292196)

abbrev mix : List ℕ → ℕ → ℕ
mix [] hash = hash
mix (k ∷ words) hash = mix words (stir (bit_xor hash (scramble k)))

-- The last steps, with 0x85ebca6b and 0xc2b2ae35.
abbrev finish : ℕ → ℕ
finish h0 =
    let h1 = bit_xor h0 (h0 / 2 ^ 16) in
    let h2 = u32 (h1 * 2246822507) in
    let h3 = bit_xor h2 (h2 / 2 ^ 13) in let h4 = u32 (h3 * 3266489909) in bit_xor h4 (h4 / 2 ^ 16)

unfoldable pub hash_of : {V : Type 0} → CacheNodeDetail V → ℕ
hash_of e =
    let k = e.key in
    let words = k.w0 ∷ k.w1 ∷ k.w2 ∷ k.w3 ∷ k.w4 ∷ k.w5 ∷ k.w6 ∷ [] in
    finish (mix words (stir (scramble e.n_eval_context)))

unfoldable pub get_hash_key : {V : Type 0} → ℕ → CacheNodeDetail V → ℕ
get_hash_key hash_mask e = bit_and (hash_of e) hash_mask

abbrev pub cache_hit : ℕ
cache_hit = 2 ^ 32 - 1

-- The entry is of the same position and context.
unfoldable pub same_entry : {V : Type 0} → CacheNodeDetail V → CacheNodeDetail V → Bool
same_entry nd e = equal_keys nd.key e.key && nd.n_eval_context == e.n_eval_context

-- The array with entry `l` set.
abbrev pub with_entry : {V : Type 0} → EvalCache V → ℕ → CacheNode V → EvalCache V
with_entry pc l node = record pc { entries = λ i. if i == l then node else pc.entries i }

-- The cache, the code, and what a hit copies out.
pub record Looked (V : Type 0) : Type 0 where
  pub pc : EvalCache V
  pub code : ℕ
  pub ar_out : Option V

unfoldable pub cache_lookup : {V : Type 0} → EvalCache V → CacheNodeDetail V → Looked V
cache_lookup pc e =
    let l = get_hash_key pc.hash_mask e in
    let node = pc.entries l in
    if same_entry node.nd_primary e
    then record { pc = pc; code = cache_hit; ar_out = some node.nd_primary.ar }
    else if same_entry node.nd_secondary e
    then record {
      pc =
          with_entry pc l
            (record { nd_primary = node.nd_secondary; nd_secondary = node.nd_primary });
      code = cache_hit;
      ar_out = some node.nd_secondary.ar;
    }
    else record { pc = pc; code = l; ar_out = none }

unfoldable pub cache_add : {V : Type 0} → EvalCache V → CacheNodeDetail V → ℕ → EvalCache V
cache_add pc e l =
    with_entry pc l (record { nd_primary = e; nd_secondary = (pc.entries l).nd_primary })

-- The first word of a key that no position has.
abbrev pub no_word : ℕ
no_word = 2 ^ 32 - 1

abbrev pub flushed : {V : Type 0} → CacheNodeDetail V → CacheNodeDetail V
flushed nd = record nd { key = record nd.key { w0 = no_word } }

unfoldable pub cache_flush : {V : Type 0} → EvalCache V → EvalCache V
cache_flush pc = record pc {
  entries = λ k.
      let node = pc.entries k in
      if ltb k (pc.size / 2)
      then record { nd_primary = flushed node.nd_primary; nd_secondary = flushed node.nd_secondary }
      else node;
}

-- The calls of the cache.
pub data CacheOp (V : Type 0) : Type 0 where
  lookup : CacheNodeDetail V → CacheOp V
  add : CacheNodeDetail V → ℕ → CacheOp V
  flush : CacheOp V

abbrev pub step : {V : Type 0} → EvalCache V → CacheOp V → EvalCache V
step pc (lookup e) = (cache_lookup pc e).pc
step pc (add e l) = cache_add pc e l
step pc flush = cache_flush pc

abbrev pub run : {V : Type 0} → EvalCache V → List (CacheOp V) → EvalCache V
run pc [] = pc
run pc (op ∷ ops) = run (step pc op) ops
