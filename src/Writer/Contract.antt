-- ===== src/Writer/Contract.antt =====
-- Children that never fail.
use wandio.Base.{◌≡◌, ap, ◌∙◌, sym, ◌++◌, length, ℕ, ℤ, pos, negsuc, Bytes}
use wandio.Writer.{Sink, Accepted, IsSink}

-- A child that takes all it is given.
module _ {W : Type 0} (Valid : W → Type 0) (taken : W → Bytes) where
  pub record TakesAll (write : W → Bytes → ℤ × W) : Type 0 where
    pub takes :
        (w : W) (bytes : Bytes)
        → Valid w
        → Valid (write w bytes).1
          × (taken (write w bytes).1 ≡ taken w ++ bytes)
          × ((write w bytes).0 ≡ pos (length bytes))

  accepted :
      (w : W) (bytes : Bytes) (r : ℤ × W)
      → Valid r.1
      → taken r.1 ≡ taken w ++ bytes
      → r.0 ≡ pos (length bytes)
      → Accepted Valid taken w bytes r
  accepted w bytes (pos k, w') v t e = (ap size e, t, v)
    where
      size : ℤ → ℕ
      size (pos n) = n
      size (negsuc n) = 0
  accepted w bytes (negsuc k, w') v t e = tt

  pub TakesAll-IsSink : (write : W → Bytes → ℤ × W) → TakesAll write → IsSink Valid taken write
  TakesAll-IsSink write all = record {
    accepts = λ w bytes good.
        let (v, t, e) = all.takes w bytes good in accepted w bytes (write w bytes) v t e;
  }

  pub TakesAll-never_fails :
      (write : W → Bytes → ℤ × W)
      → TakesAll write
      → (w : W) (bytes : Bytes) (e : ℕ) → Valid w
      → (write w bytes).0 ≡ negsuc e
      → ⊥
  TakesAll-never_fails write all w bytes e good is = cc (sym is ∙ (all.takes w bytes good).2)

-- A child whose flush keeps what it has taken
pub record Flushes {W : Type 0} (Valid : W → Type 0) (taken : W → Bytes) (io : Sink W)
    : Type 0 where
  pub keeps : (w : W) → Valid w → Valid (io.flush w).1 × (taken (io.flush w).1 ≡ taken w)
