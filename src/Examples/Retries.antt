-- ===== src/Examples/Retries.antt =====
-- An operation that fails once and then succeeds, under WithRetry.
use cashflow_backend.Base.{
  ◌+◌, ◌*◌, ◌/◌, ℕ, zero, suc, ◌≤◌, ◌≡◌, refl, true, none, some, ltb, if◌then◌else◌, arith,
}
use cashflow_backend.Base.Int.{ℤ, pos, negsuc, pos_part, leb_ℤ, ltb_ℤ}
use cashflow_backend.Infrastructure.Retry.{
  RetryConfig, Runtime, returned, panicked, effective, with_retry,
}
use cashflow_backend.Infrastructure.Retry.Laws.{
  IsCounter, IsDecimal, succeeds, fails, count-with_retry, with_retry-Recovers,
}
use cashflow_backend.Infrastructure.Retry.Panic.{FailsOnce, with_retry-panicked}
use cashflow_backend.Domain.{Decimal}

-- The state counts the calls; an error is the number of the call that it came from.
abbrev fails_once : Runtime ℕ ℕ
fails_once = record {
  fn = λ s. (if ltb s 1 then some s else none, suc s);
  ctx_err = λ s. none;
  translate = λ e. e;
  is_transient = λ e. true;
  int64n = λ n s. (0, s);
  wait = λ d s. (none, s);
  from_int = λ n. n;
  times = λ a b. a;
  int_part = λ a. a;
}

abbrev no_config : RetryConfig
no_config = record {
  max_retries = pos 0;
  initial_interval = pos 0;
  max_interval = pos 0;
  multiplier = pos 0;
}

fails_once-IsCounter : IsCounter fails_once (λ s. s)
fails_once-IsCounter = record { called = λ s. refl; random = λ n s. refl; waited = λ d s. refl }

count-with_retry_example : (with_retry fails_once no_config 0).1 ≤ 4
unfolding effective
count-with_retry_example = count-with_retry fails_once no_config (λ s. s) 0 fails_once-IsCounter

fails_once-IsDecimal : IsDecimal fails_once
fails_once-IsDecimal = record {
  ordered = λ n h. ground (arith, h);
  grows = λ a m h k. h;
  whole = λ a n h k. ground (arith, h);
}

with_retry-Recovers_example : (with_retry fails_once no_config 0).0 ≡ returned none
unfolding effective
with_retry-Recovers_example =
    with_retry-Recovers fails_once no_config 1 0 fails_once-IsDecimal refl (omega arith)
      (fails 0 refl refl refl 1 refl (succeeds refl refl))

-- Decimals in halves, a multiplier of a half, and an operation that never succeeds: the wait of one
-- nanosecond shrinks to half a nanosecond.
abbrev halves : Runtime ℕ ℕ
halves = record fails_once {
  fn = λ s. (some s, suc s);
  from_int = λ n. pos (pos_part n * 2);
  times = λ a b. pos (pos_part a * pos_part b / 2);
  int_part = λ a. pos (pos_part a / 2);
}

abbrev half_config : RetryConfig
half_config = record {
  max_retries = pos 3;
  initial_interval = pos 1;
  max_interval = pos 5;
  multiplier = pos 1;
}

at_least : (a b : ℕ) → b + b ≤ suc (suc a) * b
at_least a b = omega arith

product_of_twos : (a b : ℕ) → 2 ≤ a → 2 ≤ b → 2 ≤ a * b / 2
product_of_twos zero b h k = absurd (omega arith)
product_of_twos (suc zero) b h k = absurd (omega arith)
product_of_twos (suc (suc a)) b h k = omega (arith, at_least a b)

grows_halves :
    (a m : Decimal)
    → leb_ℤ (pos 2) a ≡ true
    → leb_ℤ (pos 2) m ≡ true
    → leb_ℤ (pos 2) (pos (pos_part a * pos_part m / 2)) ≡ true
grows_halves (pos a) (pos m) h k = ground (arith, product_of_twos a m)
grows_halves (negsuc a) m h k = absurd (ground (arith, h))
grows_halves (pos a) (negsuc m) h k = absurd (ground (arith, k))

whole_halves : (a : Decimal) → leb_ℤ (pos 2) a ≡ true → ltb_ℤ (pos 0) (pos (pos_part a / 2)) ≡ true
whole_halves (pos a) h = ground (arith, h)
whole_halves (negsuc a) h = absurd (ground (arith, h))

ordered_halves : (n : ℤ) → ltb_ℤ (pos 0) n ≡ true → leb_ℤ (pos 2) (pos (pos_part n * 2)) ≡ true
ordered_halves (pos n) h = ground (arith, h)
ordered_halves (negsuc n) h = absurd (ground (arith, h))

halves-IsDecimal : IsDecimal halves
halves-IsDecimal = record {
  ordered = ordered_halves;
  grows = grows_halves;
  whole = λ a n h k. whole_halves a h;
}

failing : (s : ℕ) → FailsOnce halves s
failing s = record { failure = s; alive = refl; failed = refl; transient = refl }

with_retry-panicked_example : (with_retry halves half_config 0).0 ≡ panicked
unfolding effective
with_retry-panicked_example =
    with_retry-panicked halves half_config 0 1 halves-IsDecimal (omega arith) (failing 0) refl
      (failing 1) refl
