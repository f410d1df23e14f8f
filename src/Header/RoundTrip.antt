-- ===== src/Header/RoundTrip.antt =====
-- src/parser/header.rs: `to_fields` followed by `from_fields`.
use hardmoney.Prelude.{
  ◌∷◌, ◌∙◌, All, true, false, Option, none, some, is_some, ◌≡◌, refl, ap, Bool-cases, inl, inr,
}
use hardmoney.Prelude.Result.{ok}
use hardmoney.Version
use hardmoney.Version.{has_name_delim_header}
use hardmoney.Header.{
  [], unwrap_or, SpecVersion, with_version, Str, normalize_field, List, field_at, Header,
  from_fields, to_fields, is_supported,
}

-- What reading establishes: the version is that of its text and a supported one, the columns hold
-- what normalising leaves, and there is a delimiter exactly where the version has its column.
pub record IsHeader (h : Header) : Type 0 where
  pub version_read : Version.from_str h.fec_version_raw ≡ ok h.version
  pub supported : is_supported h.version ≡ true
  pub delim : is_some h.name_delim ≡ has_name_delim_header h.version
  pub normal :
      All
        (λ s. normalize_field s ≡ s)
        (h.record_type
          ∷ h.ef_type
          ∷ h.fec_version_raw
          ∷ h.soft_name
          ∷ h.soft_ver
          ∷ unwrap_or h.name_delim []
          ∷ h.report_id
          ∷ h.report_number
          ∷ h.comment
          ∷ [])

from_fields_of :
    (fields : List Str) (raw : Str) (v : SpecVersion)
    → field_at fields 2 ≡ raw
    → Version.from_str raw ≡ ok v
    → is_supported v ≡ true
    → from_fields fields ≡ ok (with_version fields v)
unfolding from_fields
from_fields_of fields raw v f r s = rw (f, r, s) refl

some_of : (o : Option Str) → is_some o ≡ true → some (unwrap_or o []) ≡ o
some_of none h = cc
some_of (some s) h = refl

none_of : (o : Option Str) → is_some o ≡ false → none ≡ o
none_of none h = refl
none_of (some s) h = cc

read_raw : (h : Header) → IsHeader h → field_at (to_fields h) 2 ≡ h.fec_version_raw
unfolding field_at to_fields
read_raw h v = v.normal.1.1.0

rebuilt : (h : Header) → IsHeader h → with_version (to_fields h) h.version ≡ h
unfolding to_fields field_at
rebuilt h v =
    let n = v.normal in
    elim (Bool-cases (has_name_delim_header h.version)) [
      | inl named ↦
          rw
            (
              named, n.0, n.1.0, n.1.1.0, n.1.1.1.0, n.1.1.1.1.0, n.1.1.1.1.1.0, n.1.1.1.1.1.1.0,
              n.1.1.1.1.1.1.1.0, n.1.1.1.1.1.1.1.1.0,
            )
            (ap (λ (o : Option Str). let g : Header = record h { name_delim = o } in g)
              (some_of h.name_delim (v.delim ∙ named)))
      | inr unnamed ↦
          rw
            (
              unnamed, n.0, n.1.0, n.1.1.0, n.1.1.1.0, n.1.1.1.1.0, n.1.1.1.1.1.1.0,
              n.1.1.1.1.1.1.1.0, n.1.1.1.1.1.1.1.1.0,
            )
            (ap (λ (o : Option Str). let g : Header = record h { name_delim = o } in g)
              (none_of h.name_delim (v.delim ∙ unnamed)))
    ]

-- A header whose version is a supported one and that of its text, whose columns normalising leaves
-- as they are, and which has a delimiter exactly if its version has that column, is read back from
-- the columns that it is written as.
pub from_fields-to_fields : (h : Header) → IsHeader h → from_fields (to_fields h) ≡ ok h
from_fields-to_fields h v =
    from_fields_of (to_fields h) h.fec_version_raw h.version (read_raw h v) v.version_read
      v.supported
    ∙ ap ok (rebuilt h v)
