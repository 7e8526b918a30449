-- ===== src/Base/Two.antt =====
-- C arrays of two elements, such as those with an entry for each player.
use gnubg_android.Base.{ℕ, ◌==◌, if◌then◌else◌}

pub record Two {ℓ} (A : Type ℓ) : Type ℓ where
  pub p0 : A
  pub p1 : A

module _ {ℓ} {A : Type ℓ} where
  -- The index is 0 or 1 wherever the code reads or writes.
  abbrev pub at : Two A → ℕ → A
  at t i = if i == 0 then t.p0 else t.p1

  abbrev pub put : Two A → ℕ → A → Two A
  put t i v = if i == 0 then record t { p0 = v } else record t { p1 = v }
