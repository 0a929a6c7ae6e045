-- ===== src/Infrastructure/Retry/Laws.antt =====
-- WithRetry ends, and it rides out transient failures.
use cashflow_backend.Base.{
  ℕ, zero, suc, ◌+◌, ◌≤◌, ◌≡◌, refl, ap, ◌∙◌, true, Option, none, some, arith, Bool-cases,
  Option-cases, inl, inr,
}
use cashflow_backend.Base.Int.{ℤ, pos, pos_part, leb_ℤ, ltb_ℤ}
use cashflow_backend.Domain.{Decimal}
use cashflow_backend.Infrastructure.Retry.{
  RetryConfig, Runtime, Outcome, returned, effective, current_max, after_wait, sleep_then, after_fn,
  attempts, with_retry,
}

-- The calls of the operation are counted, and nothing else is.
pub record IsCounter {S E : Type 0} (run : Runtime S E) (count : S → ℕ) : Type 0 where
  pub called : (s : S) → count (run.fn s).1 ≡ suc (count s)
  pub random : (n : ℕ) (s : S) → count (run.int64n n s).1 ≡ count s
  pub waited : (d : ℕ) (s : S) → count (run.wait d s).1 ≡ count s

module _ {S E : Type 0} (run : Runtime S E) (multiplier limit : Decimal) (count : S → ℕ)
    (c : IsCounter run count) where
  count-after_wait :
      (next : S → Outcome E × S) (m : ℕ) (p : Option E × S)
      → ((w : S) → count (next w).1 ≤ count w + m)
      → count (after_wait run multiplier limit next p).1 ≤ count p.1 + m
  count-after_wait next m (some e, w) h = omega arith
  count-after_wait next m (none, w) h = h w

  count-sleep_then :
      (next : S → Outcome E × S) (m : ℕ) (n : ℤ) (s : S)
      → ((w : S) → count (next w).1 ≤ count w + m)
      → count (sleep_then run multiplier limit next n s).1 ≤ count s + m
  unfolding sleep_then
  count-sleep_then next m n s h = elim (Bool-cases (ltb_ℤ (pos 0) n)) [
    | inl y ↦
        let drawn = run.int64n (pos_part n) s in
        let same : count (run.wait (drawn.0) (drawn.1)).1 ≡ count s =
          c.waited (drawn.0) (drawn.1) ∙ c.random (pos_part n) s in
        rw y (omega (arith, same, count-after_wait next m (run.wait (drawn.0) (drawn.1)) h))
    | inr z ↦ rw z (omega arith)
  ]

  count-after_fn :
      (next : S → Outcome E × S) (m : ℕ) (backoff : Decimal) (p : Option E × S)
      → ((w : S) → count (next w).1 ≤ count w + m)
      → count (after_fn run multiplier limit next backoff p).1 ≤ count p.1 + m
  unfolding after_fn
  count-after_fn next m backoff (none, s) h = omega arith
  count-after_fn next m backoff (some e, s) h = elim (Bool-cases (run.is_transient e)) [
    | inl y ↦
        rw y (count-sleep_then next m (run.int_part (current_max run multiplier limit backoff)) s h)
    | inr n ↦ rw n (omega arith)
  ]

  count-attempts :
      (n : ℕ) (backoff : Decimal) (s : S)
      → count (attempts run multiplier limit n backoff s).1 ≤ count s + suc n
  unfolding attempts
  count-attempts zero backoff s = elim (Option-cases (run.ctx_err s)) [
    | inl y ↦ rw y (omega (arith, c.called s))
    | inr (e, y) ↦ rw y (omega arith)
  ]
  count-attempts (suc n) backoff s = elim (Option-cases (run.ctx_err s)) [
    | inl y ↦ rw y (
        omega (
          arith,
          c.called s,
          count-after_fn (attempts run multiplier limit n (run.times backoff multiplier)) (suc n)
              backoff (run.fn s) (λ w. count-attempts n (run.times backoff multiplier) w),
        ))
    | inr (e, y) ↦ rw y (omega arith)
  ]

-- WithRetry comes to an end: it calls the operation at most once more than the configuration, with
-- its defaults filled in, has retries, whatever the operation, the context and the clock do.
pub count-with_retry :
    {S E : Type 0} (run : Runtime S E) (config : RetryConfig) (count : S → ℕ) (s : S)
    → IsCounter run count
    → count (with_retry run config s).1
      ≤ count s + suc (pos_part (effective run.from_int config).max_retries)
unfolding with_retry
count-with_retry run config count s c =
    let d = effective run.from_int config in
    count-attempts run d.multiplier (run.from_int d.max_interval) count c (pos_part d.max_retries)
      (run.from_int d.initial_interval) s

-- What decimal.Decimal is documented to do: it keeps the order of whole numbers, a product of two
-- numbers from one upwards is one or more, and the whole part of such a number is positive.
pub record IsDecimal {S E : Type 0} (run : Runtime S E) : Type 0 where
  pub ordered :
      (n : ℤ) → ltb_ℤ (pos 0) n ≡ true → leb_ℤ (run.from_int (pos 1)) (run.from_int n) ≡ true
  pub grows :
      (a m : Decimal)
      → leb_ℤ (run.from_int (pos 1)) a ≡ true
      → leb_ℤ (run.from_int (pos 1)) m ≡ true
      → leb_ℤ (run.from_int (pos 1)) (run.times a m) ≡ true
  pub whole :
      (a : Decimal) (n : ℤ)
      → leb_ℤ (run.from_int (pos 1)) a ≡ true
      → leb_ℤ a (run.from_int n) ≡ true
      → ltb_ℤ (pos 0) (run.int_part a) ≡ true

-- The operation recovers: it fails `k` times with an error that is transient, with no end of the
-- context meanwhile, and then succeeds.
pub data Recovers {S E : Type 0} (run : Runtime S E) (multiplier limit : Decimal)
    : ℕ → Decimal → S → Type 0 where
  succeeds :
      {backoff : Decimal} {s : S}
      → run.ctx_err s ≡ none
      → (run.fn s).0 ≡ none
      → Recovers run multiplier limit 0 backoff s
  fails :
      {k : ℕ} {backoff : Decimal} {s : S} (e : E)
      → run.ctx_err s ≡ none
      → (run.fn s).0 ≡ some e
      → run.is_transient e ≡ true
      → (w : S)
      → run.wait
          (run.int64n
            (pos_part (run.int_part (current_max run multiplier limit backoff)))
            (run.fn s).1).0
          (run.int64n
            (pos_part (run.int_part (current_max run multiplier limit backoff)))
            (run.fn s).1).1
        ≡ (none, w)
      → Recovers run multiplier limit k (run.times backoff multiplier) w
      → Recovers run multiplier limit (suc k) backoff s

module _ {S E : Type 0} (run : Runtime S E) (multiplier limit : Decimal) where
  pub slept :
      (next : S → Outcome E × S) (n : ℤ) (s w : S)
      → ltb_ℤ (pos 0) n ≡ true
      → run.wait (run.int64n (pos_part n) s).0 (run.int64n (pos_part n) s).1 ≡ (none, w)
      → sleep_then run multiplier limit next n s ≡ next w
  unfolding sleep_then
  slept next n s w p e = rw p (ap (after_wait run multiplier limit next) e)

  pub retried :
      (next : S → Outcome E × S) (backoff : Decimal) (p : Option E × S) (e : E)
      → p.0 ≡ some e
      → run.is_transient e ≡ true
      → after_fn run multiplier limit next backoff p
        ≡ sleep_then run multiplier limit next
            (run.int_part (current_max run multiplier limit backoff))
            p.1
  unfolding after_fn
  retried next backoff (none, s) e f t = cc
  retried next backoff (some e', s) e f t =
      let same : run.is_transient e' ≡ true = ap run.is_transient (some_same f) ∙ t in rw same refl
    where
      some_same : {x y : E} → ◌≡◌ {A = Option E} (some x) (some y) → x ≡ y
      some_same e = cc

  done :
      (next : S → Outcome E × S) (backoff : Decimal) (p : Option E × S)
      → p.0 ≡ none
      → (after_fn run multiplier limit next backoff p).0 ≡ returned none
  unfolding after_fn
  done next backoff (none, s) f = refl
  done next backoff (some e, s) f = cc

-- From a backoff of one upwards there is something to draw from.
pub drawn_from :
    {S E : Type 0} (run : Runtime S E) (d : IsDecimal run) (multiplier : Decimal) (n : ℤ)
    (backoff : Decimal)
    → ltb_ℤ (pos 0) n ≡ true
    → leb_ℤ (run.from_int (pos 1)) backoff ≡ true
    → ltb_ℤ (pos 0) (run.int_part (current_max run multiplier (run.from_int n) backoff)) ≡ true
drawn_from run d multiplier n backoff long b = elim (Bool-cases (ltb_ℤ (run.from_int n) backoff)) [
  | inl over ↦ rw over (d.whole (run.from_int n) n (d.ordered n long) (ground arith))
  | inr under ↦ rw under (d.whole backoff n b (ground (arith, under)))
]

-- A multiplier of one or more keeps the draw of the wait from its panic.
module _ {S E : Type 0} (run : Runtime S E) (d : IsDecimal run) (multiplier : Decimal)
    (steady : leb_ℤ (run.from_int (pos 1)) multiplier ≡ true) (n : ℤ)
    (long : ltb_ℤ (pos 0) n ≡ true) where
  abbrev limit : Decimal
  limit = run.from_int n

  attempts-Recovers :
      (m k : ℕ) (backoff : Decimal) (s : S)
      → k ≤ m
      → leb_ℤ (run.from_int (pos 1)) backoff ≡ true
      → Recovers run multiplier limit k backoff s
      → (attempts run multiplier limit m backoff s).0 ≡ returned none
  unfolding attempts
  attempts-Recovers zero k backoff s h b (succeeds c f) = rw c (ap (λ r. returned r) f)
  attempts-Recovers zero k backoff s h b (fails e c f t w g next) = absurd (omega arith)
  attempts-Recovers (suc m) k backoff s h b (succeeds c f) =
      rw c (done run multiplier limit _ backoff (run.fn s) f)
  attempts-Recovers (suc m) k backoff s h b (fails {k = k'} e c f t w g next) = rw c (
      ap (λ (x : Outcome E × S). x.0)
        (retried run multiplier limit _ backoff (run.fn s) e f t
          ∙ slept run multiplier limit _ _ ((run.fn s).1) w
              (drawn_from run d multiplier n backoff long b) g)
      ∙ attempts-Recovers m k' (run.times backoff multiplier) w (omega arith)
          (d.grows backoff multiplier b steady) next)

pub initial_positive :
    (from_int : ℤ → Decimal) (config : RetryConfig)
    → ltb_ℤ (pos 0) (effective from_int config).initial_interval ≡ true
unfolding effective
initial_positive from_int config = elim (Bool-cases (leb_ℤ config.initial_interval (pos 0))) [
  | inl y ↦ rw y refl
  | inr n ↦ rw n (ground (arith, n))
]

pub limit_positive :
    (from_int : ℤ → Decimal) (config : RetryConfig)
    → ltb_ℤ (pos 0) (effective from_int config).max_interval ≡ true
unfolding effective
limit_positive from_int config = elim (Bool-cases (leb_ℤ config.max_interval (pos 0))) [
  | inl y ↦ rw y refl
  | inr n ↦ rw n (ground (arith, n))
]

-- WithRetry rides out transient failures, and does not panic, if the multiplier is one or more: if the
-- operation recovers after no more failures than the configuration, with its defaults filled in, has
-- retries, and the context does not end during the waits, WithRetry returns no error. A positive
-- multiplier below one is not covered; it can shrink the wait until its draw panics.
pub with_retry-Recovers :
    {S E : Type 0} (run : Runtime S E) (config : RetryConfig) (k : ℕ) (s : S)
    → IsDecimal run
    → leb_ℤ (run.from_int (pos 1)) (effective run.from_int config).multiplier ≡ true
    → k ≤ pos_part (effective run.from_int config).max_retries
    → Recovers run
        (effective run.from_int config).multiplier
        (run.from_int (effective run.from_int config).max_interval)
        k
        (run.from_int (effective run.from_int config).initial_interval)
        s
    → (with_retry run config s).0 ≡ returned none
unfolding with_retry
with_retry-Recovers run config k s w steady h p =
    let d = effective run.from_int config in
    attempts-Recovers run w d.multiplier steady d.max_interval (limit_positive run.from_int config)
      (pos_part d.max_retries) k (run.from_int d.initial_interval) s h
      (w.ordered d.initial_interval (initial_positive run.from_int config)) p
