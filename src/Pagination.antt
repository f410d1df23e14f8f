-- ===== src/Pagination.antt =====
-- src/api/pagination.rs: the checked page of a list endpoint, and the `cycle` filter.
use hardmoney.Prelude.{
  Bool, not, ◌&&◌, Option, none, some, ◌≡◌, ◌↔◌, ◌⊎◌, arith, refl, sym, ◌∙◌, unwrap_or,
  if◌then◌else◌, ℕ,
}
use hardmoney.Prelude.Int.{ℤ, pos, negsuc, ltb_ℤ, ◌≤ℤ◌}
use hardmoney.Prelude.Result.{Result, ok, err}
use hardmoney.Text.{Str, codes}
use hardmoney.Cycle
use hardmoney.Cycle.{Cycle, CycleError}
use hardmoney.Cycle.Laws.{IsValid, new_iff}

-- The one variant of `ApiError` that this file builds.
pub data ApiError : Type 0 where
  bad_request : Str → ApiError

pub record Pagination : Type 0 where
  pub limit : Option ℤ
  pub offset : Option ℤ

pub record Validated : Type 0 where
  pub limit : ℤ
  pub offset : ℤ

abbrev pub default_limit : ℤ
default_limit = pos 50

abbrev pub max_limit : ℤ
max_limit = pos 500

-- `(lo..=hi).contains(&x)`
abbrev in_range : ℤ → ℤ → ℤ → Bool
in_range lo hi x = not (ltb_ℤ x lo) && not (ltb_ℤ hi x)

abbrev pub limit_text : Str
limit_text = codes "limit must be between 1 and 500"

abbrev pub offset_text : Str
offset_text = codes "offset must be >= 0"

check_offset : ℤ → ℤ → Result ApiError Validated
check_offset limit offset =
    if ltb_ℤ offset (pos 0)
    then err (bad_request offset_text)
    else ok (record { limit = limit; offset = offset })

check_limit : ℤ → Option ℤ → Result ApiError Validated
unfolding check_offset
check_limit limit offset =
    if not (in_range (pos 1) max_limit limit)
    then err (bad_request limit_text)
    else check_offset limit (unwrap_or offset (pos 0))

unfoldable pub validate : Pagination → Result ApiError Validated
unfolding check_limit
validate p = check_limit (unwrap_or p.limit default_limit) p.offset

abbrev to_param : Result CycleError Cycle → Result ApiError (Option ℤ)
to_param (ok c) = ok (some (pos c.year))
to_param (err e) = err (bad_request (Cycle.error_text e))

unfoldable pub cycle_param : Option ℤ → Result ApiError (Option ℤ)
cycle_param none = ok none
cycle_param (some y) = to_param (Cycle.new y)

-- A page is accepted exactly with its defaults filled in, and if its limit is within 1..=500 and its offset is not
-- negative.
pub validate_iff :
    (p : Pagination) (v : Validated)
    → (validate p ≡ ok v) ↔ (
        (v.limit ≡ unwrap_or p.limit default_limit)
        × (v.offset ≡ unwrap_or p.offset (pos 0))
        × (pos 1 ≤ℤ v.limit)
        × (v.limit ≤ℤ max_limit)
        × (pos 0 ≤ℤ v.offset))
unfolding validate
validate_iff p v =
    (λ h. (ground arith, ground arith, ground arith, ground arith, ground arith), λ h. ground arith)

-- A page is refused for its limit exactly if that is outside 1..=500, whatever the offset, and for
-- its offset exactly if that is negative behind a good limit.
pub validate_refuses :
    (p : Pagination) (e : ApiError)
    → (validate p ≡ err e) ↔ (
        ((e ≡ bad_request limit_text)
          × ((unwrap_or p.limit default_limit ≤ℤ pos 0)
              ⊎ (pos 501 ≤ℤ unwrap_or p.limit default_limit)))
        ⊎ ((e ≡ bad_request offset_text)
            × (pos 1 ≤ℤ unwrap_or p.limit default_limit)
            × (unwrap_or p.limit default_limit ≤ℤ max_limit)
            × ((k : ℕ) × (p.offset ≡ some (negsuc k)))))
unfolding validate
validate_refuses p e = (λ h. ground arith, λ h. ground arith)

to_param-eq-ok :
    (m : Result CycleError Cycle) (y : ℤ)
    → to_param m ≡ ok (some y)
    → (c : Cycle) × (m ≡ ok c) × (y ≡ pos c.year)
to_param-eq-ok (ok c) y h = (c, refl, ground arith)
to_param-eq-ok (err e) y h = cc

-- The filter binds exactly the year of a valid cycle, and that year is the parameter.
pub cycle_param_iff :
    (raw y : ℤ)
    → (cycle_param (some raw) ≡ ok (some y))
      ↔ ((y ≡ raw) × ((c : Cycle) × (raw ≡ pos c.year) × IsValid c))
unfolding cycle_param
cycle_param_iff raw y = (bound, λ h. binds h.0 h.1.0 h.1.1 h.1.2)
  where
    bound :
        to_param (Cycle.new raw) ≡ ok (some y)
        → (y ≡ raw) × ((c : Cycle) × (raw ≡ pos c.year) × IsValid c)
    bound h =
        let (c, made, year) = to_param-eq-ok (Cycle.new raw) y h in
        let valid = (new_iff raw c).0 made in (year ∙ sym valid.0, (c, valid.0, valid.1))

    binds :
        y ≡ raw
        → (c : Cycle) → raw ≡ pos c.year
        → IsValid c
        → to_param (Cycle.new raw) ≡ ok (some y)
    binds e c year valid = rw ((new_iff raw c).1 (year, valid)) (cc)
