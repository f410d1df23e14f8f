-- ===== src/Reconcile/Chain.antt =====
-- `ReportChain`: the reports of a committee up to the current one, and what may be in one.
pub mod Sorting
pub mod InOrder
pub mod Checks
pub mod Sums
use hardmoney.Text.{codes, eq_ignore_ascii_case, trim, Str}
use hardmoney.Reconcile.Check.{ReconcileError}
use hardmoney.Prelude.{
  ◌++◌, map, find_first, [], suc, not, ◌==◌, none, ◌&&◌, ◌||◌, and_then, if◌then◌else◌, ◌∷◌, leb,
  ltb, some, unwrap_or, ℕ, Bool, List, Option,
}
use hardmoney.Filing.{Filing}
use hardmoney.Line.{get_non_empty}
use hardmoney.Table.{eq_table, Table}
use hardmoney.Calendar.{parse_fec_date, Calendar}
use hardmoney.Prelude.Result.{err, ok_or, ok, Result, to_option, ◌>>=◌}

pub data PeriodBasis : Type 0 where
  year_to_date cycle_to_date : PeriodBasis

unfoldable pub for_form : Table → Option PeriodBasis
for_form Table.f3x = some year_to_date
for_form Table.f3 = some cycle_to_date
for_form Table.f3p = some cycle_to_date
for_form _ = none

pub record Coverage (cal : Calendar) : Type 0 where
  pub from : cal.Date
  pub through : cal.Date

pub data ChainError (cal : Calendar) : Type 0 where
  unsupported_form : ReconcileError → ChainError cal
  current_coverage_missing : ChainError cal
  prior_coverage_missing : ℕ → ChainError cal
  form_mismatch : ℕ → Table → Table → ChainError cal
  filer_mismatch : ℕ → Str → Str → ChainError cal
  not_before_current : ℕ → Coverage cal → Coverage cal → ChainError cal
  overlap : ℕ → Coverage cal → ℕ → Coverage cal → ChainError cal

-- A prior report, with its place in the input.
pub record Entry (cal : Calendar) : Type 0 where
  pub index : ℕ
  pub period : Coverage cal
  pub report : Filing

pub record ReportChain (cal : Calendar) : Type 0 where
  pub current : Filing
  pub prior : List Filing
  pub form : Table
  pub basis : PeriodBasis
  pub current_coverage : Coverage cal

unfoldable pub filer_id : Filing → Str
unfolding get_non_empty trim
filer_id filing =
    trim (unwrap_or (get_non_empty filing.summary (codes "filer_committee_id_number")) [])

module _ (cal : Calendar) where
  unfoldable pub overlaps : Coverage cal → Coverage cal → Bool
  overlaps c d =
      leb (cal.day c.from) (cal.day d.through) && leb (cal.day d.from) (cal.day c.through)

  -- The derived order: by the first day, then by the last.
  unfoldable pub le_coverage : Coverage cal → Coverage cal → Bool
  le_coverage c d =
      ltb (cal.day c.from) (cal.day d.from)
      || (cal.day c.from == cal.day d.from) && leb (cal.day c.through) (cal.day d.through)

  unfoldable pub date_of : Filing → Str → Option cal.Date
  unfolding get_non_empty parse_fec_date
  date_of filing field = and_then (get_non_empty filing.summary field) (parse_fec_date cal)

  abbrev pub period_of : cal.Date → cal.Date → Option (Coverage cal)
  period_of from through =
      if leb (cal.day from) (cal.day through)
      then some (record { from = from; through = through })
      else none

  unfoldable pub coverage : Filing → Option (Coverage cal)
  unfolding date_of
  coverage filing = and_then (date_of filing (codes "coverage_from_date")) (λ from.
      and_then (date_of filing (codes "coverage_through_date")) (λ through. period_of from through))

  -- `sort_by_key`, which is stable.
  unfoldable pub insert : Entry cal → List (Entry cal) → List (Entry cal)
  unfolding le_coverage
  insert e [] = e ∷ []
  insert e (x ∷ xs) = if le_coverage e.period x.period then e ∷ x ∷ xs else x ∷ insert e xs

  unfoldable pub sort_by_coverage : List (Entry cal) → List (Entry cal)
  unfolding insert
  sort_by_coverage [] = []
  sort_by_coverage (e ∷ es) = insert e (sort_by_coverage es)

  module _ (form : Table) (filer : Str) (current : Coverage cal) where
    abbrev pub unless_overlap :
        ℕ → Filing → Coverage cal → Option (Entry cal) → Result (ChainError cal) (Entry cal)
    unless_overlap index report period none =
        ok (record { index = index; period = period; report = report })
    unless_overlap index report period (some other) =
        err (overlap other.index other.period index period)

    abbrev pub admit_period :
        ℕ → Filing → List (Entry cal) → Coverage cal → Result (ChainError cal) (Entry cal)
    admit_period index report sorted period =
        if leb (cal.day current.from) (cal.day period.through)
        then err (not_before_current index period current)
        else unless_overlap index report period
            (find_first (λ other. overlaps other.period period) sorted)

    -- One round of the loop over the prior reports.
    unfoldable pub admit : ℕ → Filing → List (Entry cal) → Result (ChainError cal) (Entry cal)
    unfolding coverage overlaps filer_id eq_ignore_ascii_case eq_table
    admit index report sorted =
        if not (eq_table report.summary.layout.table form)
        then err (form_mismatch index form report.summary.layout.table)
        else if not (eq_ignore_ascii_case (filer_id report) filer)
        then err (filer_mismatch index filer (filer_id report))
        else ok_or (coverage report) (prior_coverage_missing index)
          >>= admit_period index report sorted

    unfoldable pub gather :
        ℕ → List Filing → List (Entry cal) → Result (ChainError cal) (List (Entry cal))
    unfolding admit
    gather index [] sorted = ok sorted
    gather index (report ∷ reports) sorted = do
      entry ← admit index report sorted
      gather (suc index) reports (sorted ++ (entry ∷ []))

  unfoldable pub new : Filing → List Filing → Result (ChainError cal) (ReportChain cal)
  unfolding for_form coverage gather sort_by_coverage filer_id
  new current prior =
      let form = current.summary.layout.table in
      do
        basis ← ok_or (for_form form) (unsupported_form (ReconcileError.unsupported_form form))
        period ← ok_or (coverage current) current_coverage_missing
        entries ← gather form (filer_id current) period 0 prior []
        ok (record {
          current = current;
          prior = map (λ e. e.report) (sort_by_coverage entries);
          form = form;
          basis = basis;
          current_coverage = period;
        })
