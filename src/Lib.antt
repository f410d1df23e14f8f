-- ===== src/Lib.antt =====
-- hardmoney: a parser, writer and checker of the campaign finance filings (.fec) of the Federal
-- Election Commission, a library in Rust.
--
-- How the program is built. A filing is a header record, a cover (summary) record and body
-- records. The first column of a record is its form-type token: src/parser/form.rs dispatches it to
-- a table, and src/parser/schema.rs has the table's column layout for the spec version of the
-- header. A record is kept with its layout and one value for each field
-- (src/parser/filing.rs, `ParsedLine`); src/parser/writer.rs writes it back.
-- src/parser/stream.rs reads a filing one record at a time
-- instead, holding each record back until the line behind it is seen.
-- src/parser/reconcile.rs recomputes the lines of the cover page from the body records and from
-- each other and compares.
--
-- Which file models which part.
--   Cycle        src/cycle.rs: the election cycle (`new`, `containing`, `prev`, `next`, its text)
--   Pagination   src/api/pagination.rs: `Pagination::validate` and `cycle_param`
--   Text         the operations of Rust's `str` and `char` that the program calls
--   Field        src/parser/utils.rs: `normalize_field`, `normalize_form_type`, `is_memo_code`
--   Version      src/parser/schema.rs: `SpecVersion`
--   Layout       src/parser/schema.rs: `Layout`, with the binary search of `index_of`
--   Table        the enum that build.rs writes
--   Form         src/parser/form.rs: the dispatch table and `table_for_form_type`; the forms of the
--                tokens (Pattern) and the regex crate's syntax (Syntax)
--   Error        src/parser/error.rs: `FecError`
--   Line         src/parser/filing.rs: `ParsedLine`
--   Header       src/parser/header.rs: `Header`
--   Filing       src/parser/filing.rs: `ParseOptions`, `Lenient`, `BodyAccumulator` (Body),
--                `from_parts` (Assemble) and `parse_with` (Parse)
--   Stream       src/parser/stream.rs: `Preamble`, `LineSource` (Source), `Body` (Body),
--                `FilingReader::next` and `into_filing` (Reader), `with_options` (Open)
--   Writer       src/parser/writer.rs: the wire form of cells and records
--   Decimal      the operations of the rust_decimal crate that the program calls
--   Money        src/parser/typed.rs: `parse_money`
--   Calendar     src/parser/typed.rs: `parse_fec_date`, over the dates of the chrono crate
--   Typed        src/parser/typed.rs: the typed views, over `Typed` of schema.rs (Views)
--   Reconcile    src/parser/reconcile.rs: the rule tables, `check_line`, `Filing::reconcile`;
--                `ReportChain` and its checks (Chain)
--   Tests        small inputs
--
-- Conventions. A text is the list of its characters, a `Vec` or a slice a list, an `i64` an integer
-- whose bounds are written out where the code meets them; a `&mut self` operation returns the new
-- value. A text is decoded already, and its lines are counted without a bound. Code of other crates
-- is a parameter: the regular expressions (`Form.Regex`, with `Form.Engine.RegexLaws`: on every text
-- that `Form.Syntax.read` reads, the crate follows its documented syntax) and the decimals
-- (`Decimal`, with `DecimalLaws`: exact on whole cents up to 96 bits), each with an instance; the
-- dates (`Calendar`); and the reader of one comma-delimited line, of which nothing is asked. The
-- layouts that build.rs writes from the FEC's tables are a parameter too, and a theorem names what it
-- asks of a layout (`IsIndexed`, `IsWritable`).
--
-- A reader is the list of what its reads give, a line's bytes or a failure; the decoding of a line
-- is a parameter.
--
-- Bounds and fuel. Each loop of the streaming reader runs on fuel, one unit more than the lines that
-- are left, and collecting its items on two more, which is enough since each round takes a line. The
-- loop of the binary search runs on fuel, one unit for each position, which
-- is enough since each round at least halves the size. The theorems on the check of a filing hold
-- up to 2 ^ 28 body lines: each amount is below 2 ^ 63 cents and a rule adds at most sixteen per
-- line, so no sum reaches the bound of the decimals at 2 ^ 96.
--
-- Not modelled: the network clients, the database, the HTTP routes, the exports, the command line
-- and the web interface, which are input and output over other crates; the validation rules and
-- the review.
mod Prelude
pub mod Text
pub mod Cycle
pub mod Pagination
pub mod Field
pub mod Writer
pub mod Version
pub mod Decimal
pub mod Money
pub mod Table
pub mod Form
pub mod Layout
pub mod Error
pub mod Line
pub mod Header
pub mod Calendar
pub mod Typed
pub mod Filing
pub mod Stream
pub mod Reconcile
pub mod Tests
