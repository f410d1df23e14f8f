-- ===== src/Field.antt =====
-- src/parser/utils.rs: the normalisation of one field of a record.
pub mod Laws
use hardmoney.Prelude.{ℕ, Bool, Option, none, some}
use hardmoney.Text.{
  Str, codes, is_ascii_whitespace, trim_by, strip_prefix, strip_suffix, to_ascii_uppercase,
  eq_ignore_ascii_case,
}

abbrev pub quote : ℕ
quote = b'"'

-- `strip_prefix('"').and_then(|rest| rest.strip_suffix('"'))`
abbrev strip_closing : Option Str → Option Str
strip_closing none = none
strip_closing (some rest) = strip_suffix quote rest

unfoldable pub unquoted : Str → Option Str
unfolding strip_prefix strip_suffix
unquoted s = strip_closing (strip_prefix quote s)

abbrev pub inner_or : Str → Option Str → Str
inner_or trimmed none = trimmed
inner_or trimmed (some inner) = trim_by is_ascii_whitespace inner

unfoldable pub normalize_field : Str → Str
unfolding trim_by is_ascii_whitespace unquoted
normalize_field entry =
    let trimmed = trim_by is_ascii_whitespace entry in inner_or trimmed (unquoted trimmed)

unfoldable pub normalize_form_type : Str → Str
unfolding normalize_field to_ascii_uppercase
normalize_form_type token = to_ascii_uppercase (normalize_field token)

unfoldable pub is_memo_code : Str → Bool
unfolding normalize_field eq_ignore_ascii_case
is_memo_code value = eq_ignore_ascii_case (normalize_field value) (codes "X")
