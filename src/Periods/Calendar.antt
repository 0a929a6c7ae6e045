-- ===== src/Periods/Calendar.antt =====
-- CreateFiscalYearRequest.Validate (dto.go) with CreateFiscalYearUseCase.Execute
-- (usecase_create_fiscal_year.go) and CreateFiscalYear (internal/repository.go). Package time is a
-- parameter.
use cashflow_backend.Base.{
  ℕ, zero, suc, ◌+◌, ◌≤◌, ◌<◌, ◌≡◌, refl, subst, subst₂, ap, sym, ◌∙◌, Bool, not, ◌&&◌, ◌||◌, none,
  List, [], ◌∷◌, ◌++◌, Text, ltb, ◌==◌, exists, ok, ◌>>=◌, ◌>>◌, guard, fail_if, length, arith,
  >>=-eq-ok, ok-eq_0,
}
use cashflow_backend.Base.Int.{ℤ, pos, negsuc}
use cashflow_backend.Domain.{
  Uuid, Date, Time, FiscalYear, FiscalPeriod, open_period, open_year, Fallible, bad_date,
  bad_choice, constraint_violation,
}
use cashflow_backend.Repository.Tables.{Env, Db}

-- What package time does with a date.
pub record Calendar : Type 0 where
  pub year_of : Date → ℕ
  pub day_of : Date → ℕ
  -- Time.AddDate(years, months, days)
  pub add_date : Date → ℕ → ℕ → ℤ → Date
  -- Format("January 2006")
  pub month_name : Date → Text

pub record CreateFiscalYearRequest : Type 0 where
  pub year : ℕ
  pub start_date : Date
  pub end_date : Date

-- CreateFiscalYearRequest.Validate, behind the parsing of the two dates
unfoldable pub validate_fiscal_year : Calendar → CreateFiscalYearRequest → Fallible (Unit {0})
validate_fiscal_year c r = do
  fail_if (ltb r.year 2000 || ltb 2100 r.year) bad_choice
  guard (ltb r.start_date r.end_date) bad_date
  guard (c.year_of r.start_date == r.year) bad_date
  fail_if
      (not (c.day_of r.start_date == 1)
        || not (r.end_date == c.add_date r.start_date 1 0 (negsuc 0)))
      bad_date

-- The loop over the months, from the `i`th; `k` counts the calls of uuid.New.
unfoldable pub month_periods : Env → Calendar → Time → Uuid → Date → ℕ → ℕ → List FiscalPeriod
month_periods env c now year_id start zero i = []
month_periods env c now year_id start (suc n) i =
    let period_start = c.add_date start 0 i (pos 0) in
    record {
      id = env.new_uuid (i + 1);
      fiscal_year_id = year_id;
      period_number = i + 1;
      name = c.month_name period_start;
      start_date = period_start;
      end_date = c.add_date period_start 0 1 (negsuc 0);
      state = open_period;
      closed_at = none;
      closed_by = none;
      created_at = now;
    }
    ∷ month_periods env c now year_id start n (i + 1)

-- The keys of fiscal_periods: id, and the number within the year.
abbrev pub period_clashes : FiscalPeriod → FiscalPeriod → Bool
period_clashes p q =
    p.id == q.id || (p.fiscal_year_id == q.fiscal_year_id && p.period_number == q.period_number)

unfoldable pub insert_periods : List FiscalPeriod → Db → Fallible Db
insert_periods [] db = ok db
insert_periods (p ∷ ps) db = do
  fail_if (exists (period_clashes p) db.periods) constraint_violation
  insert_periods ps (record db { periods = db.periods ++ p ∷ [] })

-- CreateFiscalYear
unfoldable pub insert_fiscal_year : FiscalYear → List FiscalPeriod → Db → Fallible Db
unfolding insert_periods
insert_fiscal_year y ps db = do
  fail_if (exists (λ (z : FiscalYear). z.id == y.id || z.year == y.year) db.years)
      constraint_violation
  insert_periods ps (record db { years = db.years ++ y ∷ [] })

-- CreateFiscalYearUseCase.Execute, with the year and the periods that it gives back
unfoldable pub create_fiscal_year :
    Env
    → Calendar
    → Time
    → CreateFiscalYearRequest
    → Db
    → Fallible ((FiscalYear × List FiscalPeriod) × Db)
unfolding validate_fiscal_year month_periods insert_fiscal_year
create_fiscal_year env c now r db = do
  validate_fiscal_year c r
  let y : FiscalYear = record {
    id = env.new_uuid 0;
    year = r.year;
    start_date = r.start_date;
    end_date = r.end_date;
    state = open_year;
    created_at = now;
  }
  let ps = month_periods env c now y.id r.start_date 12 0
  db' ← insert_fiscal_year y ps db
  ok ((y, ps), db')

-- The periods follow each other without a gap from the day `a` to the day before `b`, none of them
-- empty.
abbrev pub Tiles : Date → List FiscalPeriod → Date → Type 0
Tiles a [] b = a ≡ b
Tiles a (p ∷ ps) b = (p.start_date ≡ a) × (p.start_date ≤ p.end_date) × Tiles (p.end_date + 1) ps b

-- What is documented of AddDate, for a first day of a month.
pub record IsGregorian (c : Calendar) : Type 0 where
  pub nothing : (s : Date) → c.add_date s 0 0 (pos 0) ≡ s
  pub day_before :
      (s : Date) (y m : ℕ)
      → c.day_of s ≡ 1
      → c.add_date s y m (negsuc 0) + 1 ≡ c.add_date s y m (pos 0)
  pub whole_year : (s : Date) (d : ℤ) → c.day_of s ≡ 1 → c.add_date s 1 0 d ≡ c.add_date s 0 12 d
  pub first_days : (s : Date) (m : ℕ) → c.day_of s ≡ 1 → c.day_of (c.add_date s 0 m (pos 0)) ≡ 1
  pub next_month :
      (s : Date) (m : ℕ)
      → c.day_of s ≡ 1
      → c.add_date (c.add_date s 0 m (pos 0)) 0 1 (pos 0) ≡ c.add_date s 0 (m + 1) (pos 0)
  pub later : (s : Date) → c.day_of s ≡ 1 → s < c.add_date s 0 1 (pos 0)

month_periods-Tiles :
    (env : Env) (c : Calendar) (w : IsGregorian c) (now : Time) (year_id : Uuid) (s : Date)
    (n i : ℕ)
    → c.day_of s ≡ 1
    → Tiles
        (c.add_date s 0 i (pos 0))
        (month_periods env c now year_id s n i)
        (c.add_date s 0 (i + n) (pos 0))
unfolding month_periods
month_periods-Tiles env c w now y s zero i d = ap (λ k. c.add_date s 0 k (pos 0)) (omega arith)
month_periods-Tiles env c w now y s (suc n) i d =
    let a = c.add_date s 0 i (pos 0) in
    let first = w.first_days s i d in
    let next : c.add_date a 0 1 (negsuc 0) + 1 ≡ c.add_date s 0 (i + 1) (pos 0) =
      w.day_before a 0 1 first ∙ w.next_month s i d in
    let rest = month_periods-Tiles env c w now y s n (i + 1) d in
    (
      refl,
      omega (arith, w.later a first, w.day_before a 0 1 first),
      subst₂
          (λ from to.
            Tiles from (month_periods env c now y s n (i + 1)) (c.add_date s 0 to (pos 0)))
          (sym next) (omega arith) rest,
    )

length-month_periods :
    (env : Env) (c : Calendar) (now : Time) (y : Uuid) (s : Date) (n i : ℕ)
    → length (month_periods env c now y s n i) ≡ n
unfolding month_periods
length-month_periods env c now y s zero i = refl
length-month_periods env c now y s (suc n) i = ap suc (length-month_periods env c now y s n (i + 1))

year_shape :
    (c : Calendar) (q : CreateFiscalYearRequest)
    → validate_fiscal_year c q ≡ ok tt
    → (c.day_of q.start_date ≡ 1) × (q.end_date ≡ c.add_date q.start_date 1 0 (negsuc 0))
unfolding validate_fiscal_year
year_shape c q v = ground arith

-- A fiscal year that is created has twelve periods that follow each other without a gap or an
-- overlap, from its first day to its last, if AddDate counts months and days as documented.
pub create_fiscal_year-Tiles :
    (env : Env) (c : Calendar) (now : Time) (q : CreateFiscalYearRequest) (db : Db)
    → {r : (FiscalYear × List FiscalPeriod) × Db} → IsGregorian c
    → create_fiscal_year env c now q db ≡ ok r
    → (length (r.0.1) ≡ 12) × Tiles (r.0.0.start_date) (r.0.1) (r.0.0.end_date + 1)
unfolding create_fiscal_year
create_fiscal_year-Tiles env c now q db {r} w e =
    let (_, v, e1) = >>=-eq-ok (validate_fiscal_year c q) _ e in
    let shape = year_shape c q v in
    let ps = month_periods env c now (env.new_uuid 0) q.start_date 12 0 in
    let (db', _, e2) = >>=-eq-ok (insert_fiscal_year _ ps db) _ e1 in
    let k = ok-eq_0 e2 in
    let s = q.start_date in
    let d = shape.0 in
    let close : c.add_date s 0 12 (pos 0) ≡ q.end_date + 1 =
      sym (ap (λ t. t + 1) (shape.1) ∙ w.day_before s 1 0 d ∙ w.whole_year s (pos 0) d) in
    let tiles : Tiles s ps (q.end_date + 1) =
      subst₂ (λ a b. Tiles a ps b) (w.nothing s) close
        (month_periods-Tiles env c w now (env.new_uuid 0) s 12 0 d) in
    (
      ap (λ t. length (t.1)) k ∙ length-month_periods env c now (env.new_uuid 0) s 12 0,
      subst (λ t. Tiles (t.0.start_date) (t.1) (t.0.end_date + 1)) (sym k) tiles,
    )
