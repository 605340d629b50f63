-- ===== src/Swd/Retry.antt =====
-- The WAIT retries of `swd_read_raw` and `swd_write_raw`.
use alonzo_bootloader_zephyr.Base.{
  ℕ, zero, suc, ◌<◌, ◌≡◌, refl, arith, Bool, true, false, eagain, etimedout, Result, ok, err,
  no_return, Exec, if◌then◌else◌,
}
use alonzo_bootloader_zephyr.Base.Hoare.{Post, Triple}
use alonzo_bootloader_zephyr.Swd.{is_eagain, retry, transaction, read_raw, write_raw}
use alonzo_bootloader_zephyr.Swd.Wire.{Gpio, Link}

module _ {S A : Type 0} where
  -- The state after `k` runs.
  abbrev pub runs : ℕ → Exec S A → S → S
  runs zero m s = s
  runs (suc k) m s = runs k m (m s).1

  -- The first `k` runs end with -EAGAIN.
  abbrev pub Waits : ℕ → Exec S A → S → Type 0
  Waits k m s = (j : ℕ) → j < k → is_eagain (m (runs j m s)).0 ≡ true

  pub retry-answered :
      (n k : ℕ) (m : Exec S A) (s : S)
      → k < n
      → Waits k m s
      → is_eagain (m (runs k m s)).0 ≡ false
      → retry n m s ≡ m (runs k m s)
  unfolding retry
  retry-answered zero k m s h waits answered = absurd (omega arith)
  retry-answered (suc n) zero m s h waits answered = rw answered
  retry-answered (suc n) (suc k) m s h waits answered =
      rw (waits 0 (omega arith))
        (retry-answered n k m (m s).1 (omega arith) (λ j p. waits (suc j) (omega arith)) answered)

  pub retry-timeout :
      (n : ℕ) (m : Exec S A) (s : S) → Waits n m s → retry n m s ≡ (err etimedout, runs n m s)
  unfolding retry
  retry-timeout zero m s waits = refl
  retry-timeout (suc n) m s waits =
      rw (waits 0 (omega arith)) (retry-timeout n m (m s).1 (λ j p. waits (suc j) (omega arith)))

  Post-retry :
      (P : S → Type 0) (Q : A → S → Type 0) (r : Result A) (s : S) (rest : Result A × S)
      → Post Q P (r, s)
      → (P s → Post Q P rest)
      → Post Q P (if is_eagain r then rest else (r, s))
  Post-retry P Q (err eagain) s rest h again = again h
  Post-retry P Q (err _) s rest h again = h
  Post-retry P Q (ok a) s rest h again = h
  Post-retry P Q no_return s rest h again = h

  -- What every run keeps, the loop keeps.
  pub Triple-retry :
      {P : S → Type 0} {Q : A → S → Type 0} (n : ℕ) (m : Exec S A)
      → Triple P m Q P
      → Triple P (retry n m) Q P
  unfolding retry
  Triple-retry zero m h = record { at = λ s p. p }
  Triple-retry {P} {Q} (suc n) m h = record {
    at = λ s p.
        Post-retry P Q (m s).0 (m s).1 (retry n m (m s).1) (h.at s p)
          (λ kept. (Triple-retry n m h).at (m s).1 kept);
  }

module _ (gpio : Gpio) (apndp : Bool) (addr : ℕ) (l : Link) where
  -- A read is answered by the first of its transactions that does not end with -EAGAIN, if that is
  -- among the first 64, with that transaction's result and state.
  pub read_raw-answered :
      (k : ℕ)
      → k < 64
      → Waits k (transaction gpio apndp true addr 0) l
      → is_eagain
          (transaction gpio apndp true addr 0 (runs k (transaction gpio apndp true addr 0) l)).0
        ≡ false
      → read_raw gpio apndp addr l
        ≡ transaction gpio apndp true addr 0 (runs k (transaction gpio apndp true addr 0) l)
  unfolding read_raw
  read_raw-answered k h waits answered = retry-answered 64 k _ l h waits answered

  -- If 64 transactions in a row end with -EAGAIN, a write ends with -ETIMEDOUT after those.
  pub write_raw-timeout :
      (word : ℕ)
      → Waits 64 (transaction gpio apndp false addr word) l
      → write_raw gpio apndp addr word l
        ≡ (err etimedout, runs 64 (transaction gpio apndp false addr word) l)
  unfolding write_raw
  write_raw-timeout word waits =
      rw (retry-timeout 64 (transaction gpio apndp false addr word) l waits)
