-- ===== src/Header.antt =====
-- src/parser/header.rs: the header record of a filing.
pub mod RoundTrip
use hardmoney.Prelude.{
  ℕ, zero, suc, ◌+◌, ◌-◌, Bool, true, false, not, ◌&&◌, ◌||◌, List, [], ◌∷◌, ◌++◌, Option, none,
  some, get_elem?, unwrap_or, and_then, keep_if, leb, if◌then◌else◌,
}
use hardmoney.Prelude.Result.{Result, ok, err, ◌>>=◌, map_err}
use hardmoney.Text.{
  Str, codes, byte_len, is_empty, is_whitespace, trim, trim_start, strip_prefix, all_digits,
  eq_ignore_ascii_case, parse_digits, parse_unsigned, max_u32, max_u64,
}
use hardmoney.Field.{normalize_field}
use hardmoney.Version
use hardmoney.Version.{SpecVersion, has_name_delim_header}
use hardmoney.Error.{FecError, unknown_electronic_header_version}

pub record Header : Type 0 where
  pub record_type : Str
  pub ef_type : Str
  pub fec_version_raw : Str
  pub version : SpecVersion
  pub soft_name : Str
  pub soft_ver : Str
  pub name_delim : Option Str
  pub report_id : Str
  pub report_number : Str
  pub comment : Str

abbrev normalized : Option Str → Str
normalized none = []
normalized (some s) = normalize_field s

-- The closure `field`.
unfoldable pub field_at : List Str → ℕ → Str
unfolding normalize_field
field_at fields i = normalized (get_elem? fields i)

-- The electronic versions are 3.x to 8.x.
abbrev pub is_supported : SpecVersion → Bool
is_supported v = not v.paper && leb 3 v.major && leb v.major 8

-- The columns behind the software's version: one more in 3.x-5.x.
abbrev pub with_version : List Str → SpecVersion → Header
with_version fields version =
    let named = has_name_delim_header version in
    let tail = if named then 6 else 5 in
    record {
      record_type = field_at fields 0;
      ef_type = field_at fields 1;
      fec_version_raw = field_at fields 2;
      version = version;
      soft_name = field_at fields 3;
      soft_ver = field_at fields 4;
      name_delim = if named then some (field_at fields 5) else none;
      report_id = field_at fields tail;
      report_number = field_at fields (tail + 1);
      comment = field_at fields (tail + 2);
    }

abbrev pub checked : List Str → Str → SpecVersion → Result FecError Header
checked fields raw version =
    if not (is_supported version)
    then err (unknown_electronic_header_version raw)
    else ok (with_version fields version)

unfoldable pub from_fields : List Str → Result FecError Header
unfolding field_at Version.from_str has_name_delim_header
from_fields fields =
    let raw = field_at fields 2 in
    do
      version ← map_err (λ e. unknown_electronic_header_version raw) (Version.from_str raw)
      checked fields raw version

unfoldable pub to_fields : Header → List Str
unfolding has_name_delim_header
to_fields h =
    (h.record_type ∷ h.ef_type ∷ h.fec_version_raw ∷ h.soft_name ∷ h.soft_ver ∷ [])
    ++ ((if has_name_delim_header h.version then unwrap_or h.name_delim [] ∷ [] else [])
        ++ (h.report_id ∷ h.report_number ∷ h.comment ∷ []))

abbrev onto_first : ℕ → Option (Str × Str) → Option (Str × Str)
onto_first c none = none
onto_first c (some (s, t)) = some (c ∷ s, t)

-- `s.get(..n)` with `s.get(n..)`: the text cut after `n` bytes, if that is between characters.
unfoldable pub cut_bytes : ℕ → Str → Option (Str × Str)
unfolding byte_len
cut_bytes zero s = some ([], s)
cut_bytes (suc n) [] = none
cut_bytes (suc n) (c ∷ s) =
    let width = byte_len (c ∷ []) in
    if leb width (suc n) then onto_first c (cut_bytes (suc n - width) s) else none

abbrev after_fec : Str × Str → Option Str
after_fec (prefix, rest) = if eq_ignore_ascii_case prefix (codes "fec") then some rest else none

abbrev filing_number : Str → Option ℕ
filing_number digits =
    if is_empty digits || not (all_digits digits) then none else parse_digits max_u64 digits

unfoldable pub original_filing_id : Header → Option ℕ
unfolding trim cut_bytes eq_ignore_ascii_case trim_start strip_prefix all_digits parse_digits
original_filing_id h = and_then (cut_bytes 3 (trim h.report_id)) (λ cut.
    and_then (after_fec cut) (λ rest.
      and_then (strip_prefix b'-' (trim_start is_whitespace rest))
        (λ digits. filing_number (trim digits))))

unfoldable pub amendment_number : Header → Option ℕ
unfolding trim parse_unsigned
amendment_number h = parse_unsigned max_u32 (trim h.report_number)
