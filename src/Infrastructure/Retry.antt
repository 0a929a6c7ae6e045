-- ===== src/Infrastructure/Retry.antt =====
-- WithRetry (retry.go). The world is a state that the operation, the clock and the random source
-- change; context, errors and decimal.Decimal are parameters. A `nil` error is `none`.
pub mod Laws
pub mod Panic
use cashflow_backend.Base.{
  ℕ, zero, suc, ◌+◌, ◌≤◌, ◌≡◌, refl, ap, ◌∙◌, Bool, true, Option, none, some, arith, if◌then◌else◌,
  Bool-cases, Option-cases, inl, inr,
}
use cashflow_backend.Base.Int.{ℤ, pos, pos_part, leb_ℤ, ltb_ℤ}
use cashflow_backend.Domain.{Decimal}

pub record RetryConfig : Type 0 where
  pub max_retries : ℤ
  pub initial_interval : ℤ
  pub max_interval : ℤ
  pub multiplier : Decimal

-- What WithRetry calls.
pub record Runtime (S E : Type 0) : Type 0 where
  -- the operation
  pub fn : S → Option E × S
  -- ctx.Err
  pub ctx_err : S → Option E
  pub translate : E → E
  pub is_transient : E → Bool
  -- rand.Int64N of a positive number, and the select between ctx.Done and time.After
  pub int64n : ℕ → S → ℕ × S
  pub wait : ℕ → S → Option E × S
  -- NewFromInt, Mul, GreaterThan and IntPart of decimal.Decimal
  pub from_int : ℤ → Decimal
  pub times : Decimal → Decimal → Decimal
  pub int_part : Decimal → ℤ

-- rand.Int64N panics on a number that is not positive.
pub data Outcome (E : Type 0) : Type 0 where
  returned : Option E → Outcome E
  panicked : Outcome E

-- The first lines of WithRetry, and DefaultRetryConfig.
unfoldable pub effective : (ℤ → Decimal) → RetryConfig → RetryConfig
effective from_int c = record {
  max_retries = if leb_ℤ c.max_retries (pos 0) then pos 3 else c.max_retries;
  initial_interval = if leb_ℤ c.initial_interval (pos 0) then pos 50000000 else c.initial_interval;
  max_interval = if leb_ℤ c.max_interval (pos 0) then pos 2000000000 else c.max_interval;
  multiplier = if ltb_ℤ (pos 0) c.multiplier then c.multiplier else from_int (pos 2);
}

module _ {S E : Type 0} (run : Runtime S E) (multiplier limit : Decimal) where
  -- `currentMax`
  abbrev pub current_max : Decimal → Decimal
  current_max backoff = if ltb_ℤ limit backoff then limit else backoff

  -- The wait before the next attempt, which `next` stands for.
  abbrev pub after_wait : (S → Outcome E × S) → Option E × S → Outcome E × S
  after_wait next (some e, w) = (returned (some (run.translate e)), w)
  after_wait next (none, w) = next w

  unfoldable pub sleep_then : (S → Outcome E × S) → ℤ → S → Outcome E × S
  sleep_then next n s =
      if ltb_ℤ (pos 0) n
      then after_wait next
          (run.wait ((run.int64n (pos_part n) s).0) ((run.int64n (pos_part n) s).1))
      else (panicked, s)

  -- The tests on the error of an attempt that is not the last.
  unfoldable pub after_fn : (S → Outcome E × S) → Decimal → Option E × S → Outcome E × S
  unfolding sleep_then
  after_fn next backoff (none, s) = (returned none, s)
  after_fn next backoff (some e, s) =
      if run.is_transient e
      then sleep_then next (run.int_part (current_max backoff)) s
      else (returned (some e), s)

  abbrev pub last_attempt : Option E × S → Outcome E × S
  last_attempt (r, s) = (returned r, s)

  abbrev pub unless_done : Option E → S → Outcome E × S → Outcome E × S
  unless_done (some e) s rest = (returned (some (run.translate e)), s)
  unless_done none s rest = rest

  -- The loop; the number is that of the attempts behind this one.
  unfoldable pub attempts : ℕ → Decimal → S → Outcome E × S
  unfolding after_fn
  attempts zero backoff s = unless_done (run.ctx_err s) s (last_attempt (run.fn s))
  attempts (suc n) backoff s =
      unless_done (run.ctx_err s) s
        (after_fn (attempts n (run.times backoff multiplier)) backoff (run.fn s))

-- WithRetry
unfoldable pub with_retry : {S E : Type 0} → Runtime S E → RetryConfig → S → Outcome E × S
unfolding attempts effective
with_retry run config s =
    let c = effective run.from_int config in
    attempts run c.multiplier (run.from_int c.max_interval) (pos_part c.max_retries)
      (run.from_int c.initial_interval) s
