-- ===== src/Cache/Hits.antt =====
-- What a hit in the cache gives, engine-core/lib/cache.c.
use mathlib.Core.Option.{some-injective}
use Prim.Native.Nat.{bit_and, bit_and-bitwise, digits, min}
use gnubg_android.Base.{
  ℕ, zero, suc, ◌/◌, ◌≤◌, ◌<◌, ◌≡◌, ◌≢◌, refl, sym, ◌∙◌, ap, ap₂, Bool, true, false, none, some,
  List, [], ◌∷◌, ltb, ◌==◌, if◌then◌else◌, ℕ_discrete, arith,
}
use gnubg_android.Position.Key.{PositionKey}
use gnubg_android.Position.Key.Laws.{equal_keys-eq, equal_keys_refl}
use gnubg_android.Cache.{
  CacheNodeDetail, CacheNode, EvalCache, get_hash_key, cache_hit, same_entry, with_entry, Looked,
  cache_lookup, cache_add, no_word, cache_flush, CacheOp, lookup, add, flush, run,
}

digits_le : (n a b : ℕ) → digits (λ b. 0) min n a b ≤ b
digits_le zero a b = omega arith
digits_le (suc n) zero b = omega arith
digits_le (suc n) (suc a) b = let ih = digits_le n (suc a / 2) (b / 2) in omega arith

bit_and_le : (a b : ℕ) → bit_and a b ≤ b
bit_and_le a b =
    let e : bit_and a b ≡ digits (λ b. 0) min a a b = bit_and-bitwise a b in
    let d = digits_le a a b in omega arith

-- The index is at most the mask.
get_hash_key_le :
    {V : Type 0} → (hash_mask : ℕ) (e : CacheNodeDetail V) → get_hash_key hash_mask e ≤ hash_mask
unfolding get_hash_key
get_hash_key_le hash_mask e = bit_and_le _ hash_mask

module _ {V : Type 0} where
  same_entry_refl : (e : CacheNodeDetail V) → same_entry e e ≡ true
  unfolding same_entry
  same_entry_refl e = let k = equal_keys_refl e.key in ground arith

  -- A lookup that finds the first entry of its node.
  lookup_primary :
      (pc : EvalCache V) (e : CacheNodeDetail V)
      → let node = pc.entries (get_hash_key pc.hash_mask e) in
        same_entry node.nd_primary e ≡ true
        → cache_lookup pc e ≡ record { pc = pc; code = cache_hit; ar_out = some node.nd_primary.ar }
  unfolding cache_lookup
  lookup_primary pc e h = rw h refl

  -- An entry that is added at the index of its key and context is found by a lookup right after, which
  -- changes nothing.
  cache_lookup-cache_add :
      (pc : EvalCache V) (e : CacheNodeDetail V)
      → let pc' = cache_add pc e (get_hash_key pc.hash_mask e) in
        cache_lookup pc' e ≡ record { pc = pc'; code = cache_hit; ar_out = some e.ar }
  unfolding cache_add
  cache_lookup-cache_add pc e =
      let l = get_hash_key pc.hash_mask e in
      let t : (l == l) ≡ true = ground arith in
      let node : CacheNode V = record {
        nd_primary = e;
        nd_secondary = (pc.entries l).nd_primary;
      } in
      let entry : (cache_add pc e l).entries l ≡ node = rw t refl in
      lookup_primary (cache_add pc e l) e
        (ap (λ (n : CacheNode V). same_entry n.nd_primary e) entry ∙ same_entry_refl e)
      ∙ ap
          (λ (n : CacheNode V). record {
            pc = cache_add pc e l;
            code = cache_hit;
            ar_out = some n.nd_primary.ar;
          })
          entry

module _ {V : Type 0} (f : PositionKey → ℕ → V) where
  -- What is stored is `f` of the key and the context, unless it was flushed.
  abbrev pub Right : CacheNodeDetail V → Type 0
  Right nd = nd.key.w0 ≢ no_word → nd.ar ≡ f nd.key nd.n_eval_context

  abbrev RightNode : CacheNode V → Type 0
  RightNode node = Right node.nd_primary × Right node.nd_secondary

  record Valid (pc : EvalCache V) : Type 0 where
    mask : pc.hash_mask < pc.size / 2
    right : (i : ℕ) → i < pc.size / 2 → RightNode (pc.entries i)

  -- What is added is right.
  abbrev pub AddsRight : List (CacheOp V) → Type 0
  AddsRight [] = Unit {0}
  AddsRight (lookup e ∷ ops) = AddsRight ops
  AddsRight (add e l ∷ ops) = (e.ar ≡ f e.key e.n_eval_context) × AddsRight ops
  AddsRight (flush ∷ ops) = AddsRight ops

  same_entry-Right :
      (nd e : CacheNodeDetail V)
      → same_entry nd e ≡ true
      → Right nd
      → e.key.w0 ≢ no_word
      → nd.ar ≡ f e.key e.n_eval_context
  unfolding same_entry
  same_entry-Right nd e h r known =
      let ek : nd.key ≡ e.key = equal_keys-eq nd.key e.key (ground arith) in
      let ec : nd.n_eval_context ≡ e.n_eval_context = ground arith in
      r (λ z. known (ap (λ (k : PositionKey). k.w0) (sym ek) ∙ z)) ∙ ap₂ f ek ec

  with_entry-Valid :
      (pc : EvalCache V) (l : ℕ) (node : CacheNode V)
      → Valid pc
      → (l < pc.size / 2 → RightNode node)
      → Valid (with_entry pc l node)
  with_entry-Valid pc l node v r = record {
    mask = v.mask;
    right = λ i h. elim (ℕ_discrete i l) [
      | yes e ↦ let t : (i == l) ≡ true = ground arith in rw t (r (omega arith))
      | no ne ↦ let t : (i == l) ≡ false = ground arith in rw t (v.right i h)
    ];
  }

  -- The index of an entry is within the array.
  index :
      (pc : EvalCache V) (e : CacheNodeDetail V)
      → Valid pc
      → get_hash_key pc.hash_mask e < pc.size / 2
  index pc e v = let m = get_hash_key_le pc.hash_mask e in omega (arith, v.mask)

  -- A lookup leaves the cache right, and what it copies out is.
  record LookedRight (e : CacheNodeDetail V) (r : Looked V) : Type 0 where
    valid : Valid r.pc
    out : e.key.w0 ≢ no_word → (v : V) → r.ar_out ≡ some v → v ≡ f e.key e.n_eval_context

  looked : (pc : EvalCache V) (e : CacheNodeDetail V) → Valid pc → LookedRight e (cache_lookup pc e)
  unfolding cache_lookup
  looked pc e v = cases (same_entry node.nd_primary e) (same_entry node.nd_secondary e) refl refl
    where
      l : ℕ
      l = get_hash_key pc.hash_mask e

      node : CacheNode V
      node = pc.entries l

      here : RightNode node
      here = v.right l (index pc e v)

      swapped : CacheNode V
      swapped = record { nd_primary = node.nd_secondary; nd_secondary = node.nd_primary }

      cases :
          (p q : Bool)
          → same_entry node.nd_primary e ≡ p
          → same_entry node.nd_secondary e ≡ q
          → LookedRight e (
              if p
              then record { pc = pc; code = cache_hit; ar_out = some node.nd_primary.ar }
              else if q
              then record {
                pc = with_entry pc l swapped;
                code = cache_hit;
                ar_out = some node.nd_secondary.ar;
              }
              else record { pc = pc; code = l; ar_out = none })
      cases true q hp hq = record {
        valid = v;
        out = λ known x same.
            sym (some-injective node.nd_primary.ar x same)
            ∙ same_entry-Right node.nd_primary e hp here.0 known;
      }
      cases false true hp hq = record {
        valid = with_entry-Valid pc l swapped v (λ _. (here.1, here.0));
        out = λ known x same.
            sym (some-injective node.nd_secondary.ar x same)
            ∙ same_entry-Right node.nd_secondary e hq here.1 known;
      }
      cases false false hp hq = record { valid = v; out = λ known x same. absurd (cc) }

  flush-Valid : (pc : EvalCache V) → pc.hash_mask < pc.size / 2 → Valid (cache_flush pc)
  unfolding cache_flush
  flush-Valid pc m = record {
    mask = m;
    right = λ i h.
        let t : ltb i (pc.size / 2) ≡ true = ground arith in
        rw t (λ known. absurd (known refl), λ known. absurd (known refl));
  }

  add-Valid :
      (pc : EvalCache V) (e : CacheNodeDetail V) (l : ℕ)
      → Valid pc
      → e.ar ≡ f e.key e.n_eval_context
      → Valid (cache_add pc e l)
  unfolding cache_add
  add-Valid pc e l v right =
      with_entry-Valid pc l (record { nd_primary = e; nd_secondary = (pc.entries l).nd_primary }) v
        (λ h. (λ _. right, (v.right l h).0))

  run-Valid :
      (ops : List (CacheOp V)) (pc : EvalCache V) → AddsRight ops → Valid pc → Valid (run pc ops)
  run-Valid [] pc a v = v
  run-Valid (lookup e ∷ ops) pc a v = run-Valid ops (cache_lookup pc e).pc a (looked pc e v).valid
  run-Valid (add e l ∷ ops) pc a v = run-Valid ops (cache_add pc e l) a.1 (add-Valid pc e l v a.0)
  run-Valid (flush ∷ ops) pc a v = run-Valid ops (cache_flush pc) a (flush-Valid pc v.mask)

  -- From a cache of any contents that is flushed, after any calls that add only values of `f`, a
  -- lookup that hits copies out the value of `f` at its key and context; the mask is within the array,
  -- and the key's first word is not the one that a flush leaves.
  pub cache_lookup_right :
      (pc : EvalCache V) (ops : List (CacheOp V)) (e : CacheNodeDetail V) (v : V)
      → pc.hash_mask < pc.size / 2
      → AddsRight ops
      → e.key.w0 ≢ no_word
      → (cache_lookup (run (cache_flush pc) ops) e).ar_out ≡ some v
      → v ≡ f e.key e.n_eval_context
  cache_lookup_right pc ops e v m a known hit =
      (looked (run (cache_flush pc) ops) e
          (run-Valid ops (cache_flush pc) a (flush-Valid pc m))).out
        known v hit
