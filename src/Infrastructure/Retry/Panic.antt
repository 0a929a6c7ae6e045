-- ===== src/Infrastructure/Retry/Panic.antt =====
-- The draw of a wait that has shrunk to nothing.
use cashflow_backend.Base.{ℕ, zero, suc, ◌≤◌, ◌≡◌, refl, ap, ◌∙◌, true, false, none, some, arith}
use cashflow_backend.Base.Int.{ℤ, pos, pos_part, ltb_ℤ}
use cashflow_backend.Domain.{Decimal}
use cashflow_backend.Infrastructure.Retry.{
  RetryConfig, Runtime, Outcome, panicked, effective, current_max, sleep_then, attempts, with_retry,
}
use cashflow_backend.Infrastructure.Retry.Laws.{
  IsDecimal, slept, retried, drawn_from, initial_positive, limit_positive,
}

-- An attempt fails with an error that is transient, in a context that has not ended.
pub record FailsOnce {S E : Type 0} (run : Runtime S E) (s : S) : Type 0 where
  pub failure : E
  pub alive : run.ctx_err s ≡ none
  pub failed : (run.fn s).0 ≡ some failure
  pub transient : run.is_transient failure ≡ true

module _ {S E : Type 0} (run : Runtime S E) (multiplier limit : Decimal) where
  undrawn :
      (next : S → Outcome E × S) (n : ℤ) (s : S)
      → ltb_ℤ (pos 0) n ≡ false
      → (sleep_then run multiplier limit next n s).0 ≡ panicked
  unfolding sleep_then
  undrawn next n s z = rw z refl

  last_draw :
      (n : ℕ) (backoff : Decimal) (s : S)
      → FailsOnce run s
      → ltb_ℤ (pos 0) (run.int_part (current_max run multiplier limit backoff)) ≡ false
      → (attempts run multiplier limit (suc n) backoff s).0 ≡ panicked
  unfolding attempts
  last_draw n backoff s f z = rw f.alive (
      ap (λ (x : Outcome E × S). x.0)
        (retried run multiplier limit _ backoff (run.fn s) f.failure f.failed f.transient)
      ∙ undrawn _ _ ((run.fn s).1) z)

  two_failures :
      (m : ℕ) (backoff : Decimal) (s w : S)
      → 2 ≤ m
      → FailsOnce run s
      → ltb_ℤ (pos 0) (run.int_part (current_max run multiplier limit backoff)) ≡ true
      → run.wait
          (run.int64n
            (pos_part (run.int_part (current_max run multiplier limit backoff)))
            (run.fn s).1).0
          (run.int64n
            (pos_part (run.int_part (current_max run multiplier limit backoff)))
            (run.fn s).1).1
        ≡ (none, w)
      → FailsOnce run w
      → ltb_ℤ
          (pos 0)
          (run.int_part (current_max run multiplier limit (run.times backoff multiplier)))
        ≡ false
      → (attempts run multiplier limit m backoff s).0 ≡ panicked
  unfolding attempts
  two_failures zero backoff s w h f p g f' z = absurd (omega arith)
  two_failures (suc zero) backoff s w h f p g f' z = absurd (omega arith)
  two_failures (suc (suc n)) backoff s w h f p g f' z = rw f.alive (
      ap (λ (x : Outcome E × S). x.0)
        (retried run multiplier limit _ backoff (run.fn s) f.failure f.failed f.transient
          ∙ slept run multiplier limit _ _ ((run.fn s).1) w p g)
      ∙ last_draw n (run.times backoff multiplier) w f' z)

-- What Int64N draws a wait from, under the configuration with its defaults filled in.
abbrev pub drawn : {S E : Type 0} → Runtime S E → RetryConfig → Decimal → ℤ
drawn run config backoff = run.int_part (
    current_max run (effective run.from_int config).multiplier
      (run.from_int (effective run.from_int config).max_interval) backoff)

abbrev pub first_backoff : {S E : Type 0} → Runtime S E → RetryConfig → Decimal
first_backoff run config = run.from_int (effective run.from_int config).initial_interval

-- WithRetry panics on a multiplier that shrinks the wait: if the configuration, with its defaults filled
-- in, has two retries at least, the first two attempts fail with transient errors in a context that
-- does not end, and the first interval times the multiplier, cut at the longest one, has no positive
-- whole part, then the second wait is drawn with rand.Int64N of a number that is not positive.
pub with_retry-panicked :
    {S E : Type 0} (run : Runtime S E) (config : RetryConfig) (s w : S)
    → IsDecimal run
    → 2 ≤ pos_part (effective run.from_int config).max_retries
    → FailsOnce run s
    → run.wait
        (run.int64n (pos_part (drawn run config (first_backoff run config))) (run.fn s).1).0
        (run.int64n (pos_part (drawn run config (first_backoff run config))) (run.fn s).1).1
      ≡ (none, w)
    → FailsOnce run w
    → ltb_ℤ (pos 0) (
        drawn run config
          (run.times (first_backoff run config) (effective run.from_int config).multiplier))
      ≡ false
    → (with_retry run config s).0 ≡ panicked
unfolding with_retry
with_retry-panicked run config s w d h f g f' z =
    let c = effective run.from_int config in
    two_failures run c.multiplier (run.from_int c.max_interval) (pos_part c.max_retries)
      (first_backoff run config) s w h f
      (drawn_from run d c.multiplier c.max_interval (first_backoff run config)
        (limit_positive run.from_int config)
        (d.ordered c.initial_interval (initial_positive run.from_int config)))
      g f' z
