-- ===== src/Writer.antt =====
-- src/parser/writer.rs: the wire form of cells and records.
pub mod Cell
use hardmoney.Prelude.{
  ℕ, ◌+◌, Bool, ◌&&◌, ◌||◌, false, true, List, [], ◌∷◌, ◌++◌, map, leb, ◌==◌, if◌then◌else◌,
}
use hardmoney.Text.{
  join, starts_with, Str, codes, byte_len, starts_with_char, ends_with_char, contains,
}
use hardmoney.Field.{quote}

-- `cell.len() >= 2 && cell.starts_with('"') && cell.ends_with('"')`
unfoldable pub is_wrapped : Str → Bool
unfolding byte_len starts_with_char ends_with_char
is_wrapped cell = leb 2 (byte_len cell) && starts_with_char quote cell && ends_with_char quote cell

-- A value that itself begins and ends with `"` goes out in one more pair.
pub wire_cell : Str → Str
wire_cell cell = if is_wrapped cell then quote ∷ (cell ++ quote ∷ []) else cell

abbrev pub fs : ℕ
fs = 0x1c

abbrev pub crlf : Str
crlf = 13 ∷ 10 ∷ []

-- `push_sanitised`: a forbidden character becomes a space.
abbrev pub sanitise : (ℕ → Bool) → Str → Str
sanitise forbidden = map (λ c. if forbidden c then 32 else c)

abbrev pub fs_forbidden : ℕ → Bool
fs_forbidden c = c == fs || c == 10

unfoldable pub fs_cell : Str → Str
unfolding wire_cell
fs_cell cell = sanitise fs_forbidden (wire_cell cell)

-- The loop over the characters of a quoted comma-delimited cell.
abbrev escape_quotes : Str → Str
escape_quotes [] = []
escape_quotes (c ∷ s) =
    if c == quote
    then quote ∷ quote ∷ escape_quotes s
    else (if c == 10 then 32 else c) ∷ escape_quotes s

abbrev needs_quotes : ℕ → Bool
needs_quotes c = c == b',' || c == quote || c == 13 || c == 10 || c == fs

-- `push_csv_cell`
unfoldable pub csv_cell : Bool → Str → Str
unfolding wire_cell contains
csv_cell force_quote cell =
    let wired = wire_cell cell in
    if force_quote || contains needs_quotes wired
    then quote ∷ (escape_quotes wired ++ quote ∷ [])
    else wired

pub data LineWriter : Type 0 where
  file_separator csv : LineWriter

abbrev pub for_version : Bool → LineWriter
for_version uses_fs = if uses_fs then file_separator else csv

abbrev csv_cells : Bool → List Str → List Str
csv_cells force [] = []
csv_cells force (c ∷ cells) = csv_cell force c ∷ map (csv_cell false) cells

-- `LineWriter::write_cells`, with the record terminator.
unfoldable pub write_record_cells : LineWriter → List Str → Bool → Str
unfolding fs_cell csv_cell join
write_record_cells file_separator cells force_quote_first = join fs (map fs_cell cells) ++ crlf
write_record_cells csv cells force_quote_first =
    join b',' (csv_cells force_quote_first cells) ++ crlf

abbrev hides_file_marker : LineWriter → List Str → Bool → Bool
hides_file_marker file_separator cells force_quote = false
hides_file_marker csv [] force_quote = force_quote
hides_file_marker csv (c ∷ cells) force_quote =
    force_quote || starts_with (codes "/*") c || starts_with (0xfeff ∷ []) c

unfoldable pub write_header : LineWriter → List Str → Bool → Str
unfolding write_record_cells starts_with
write_header w cells force_quote =
    write_record_cells w cells (hides_file_marker w cells force_quote)
