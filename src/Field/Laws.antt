-- ===== src/Field/Laws.antt =====
-- src/parser/utils.rs: `normalize_field` and `normalize_form_type`, on their results.
use hardmoney.Prelude.{Option, none, some, ◌≡◌, refl, ap, []}
use hardmoney.Text.{Str, is_ascii_whitespace, trim_by}
use hardmoney.Text.Trim.{IsTrimmed, trim_by-IsTrimmed, trim_by_of_trimmed}
use hardmoney.Field.{unquoted, inner_or, normalize_field}

inner_or-IsTrimmed :
    (s : Str) (o : Option Str)
    → IsTrimmed is_ascii_whitespace s
    → IsTrimmed is_ascii_whitespace (inner_or s o)
inner_or-IsTrimmed s none h = h
inner_or-IsTrimmed s (some inner) h = trim_by-IsTrimmed is_ascii_whitespace inner

-- A normalised field has no ASCII whitespace at its ends.
pub normalize_field-IsTrimmed : (s : Str) → IsTrimmed is_ascii_whitespace (normalize_field s)
unfolding normalize_field
normalize_field-IsTrimmed s =
    let trimmed = trim_by is_ascii_whitespace s in
    inner_or-IsTrimmed trimmed (unquoted trimmed) (trim_by-IsTrimmed is_ascii_whitespace s)

-- On a trimmed field only the quotes are left to look at.
pub normalize_field_of_trimmed :
    (s : Str) → IsTrimmed is_ascii_whitespace s → normalize_field s ≡ inner_or s (unquoted s)
unfolding normalize_field
normalize_field_of_trimmed s h =
    ap (λ t. inner_or t (unquoted t)) (trim_by_of_trimmed is_ascii_whitespace s h)

-- A blank field, padded or quoted, is the empty value.
pub normalize_field-nil : normalize_field [] ≡ []
unfolding normalize_field
normalize_field-nil = refl
