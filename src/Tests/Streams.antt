-- ===== src/Tests/Streams.antt =====
-- The filing of three lines, read record by record.
use hardmoney.Stream.Finite.{read_filing-Returns}
use hardmoney.Version.{electronic}
use hardmoney.Filing.Parse.{parse_with}
use hardmoney.Filing.{strict, Filing, Lenient, lenient}
use hardmoney.Stream.Open.{read_filing}
use hardmoney.Error.{io, FecError}
use hardmoney.Filing.Body.{numbered_lines}
use hardmoney.Stream.Fused.{next-Fused, Fused}
use hardmoney.Stream.Preambles.{IsListed}
use hardmoney.Text.{join, Str, codes}
use hardmoney.Prelude.{true, ◌++◌, [], ◌∷◌, refl, ◌≡◌, none, some, inr}
use hardmoney.Stream.Body.{new as new_body}
use hardmoney.Stream.Reader.{next, delimited, FilingReader}
use hardmoney.Prelude.Result.{Result, ok, err}
use hardmoney.Tests.Filings.{layouts, f99_only, no_csv, content, header, cover}
use hardmoney.Stream.Whole.{read_filing-parse_with}
use hardmoney.Stream.Source.{Reads, new}
use hardmoney.Stream.Pending.{pending}
use hardmoney.Stream.Blocks.{given}
use hardmoney.Table.{Table}

abbrev ascii : Str → Str
ascii bytes = bytes

abbrev reads : Reads
reads =
    ok (
      join 0x1c (codes "HDR" ∷ codes "FEC" ∷ codes "8.5" ∷ codes "soft" ∷ codes "1" ∷ [])
      ++ (10 ∷ []))
    ∷ ok (join 0x1c (codes "F99A" ∷ codes "Dear" ∷ []) ++ (10 ∷ []))
    ∷ ok (codes "ZZ9")
    ∷ []

layouts-IsListed : IsListed layouts
layouts-IsListed Table.f99 = (refl, tt)
layouts-IsListed _ = tt

same_lines : pending ascii (new reads) ≡ given (numbered_lines content)
unfolding pending numbered_lines join
same_lines = refl

read_filing-parse_with_example :
    read_filing layouts f99_only ascii no_csv lenient reads
    ≡ some (parse_with layouts f99_only no_csv content lenient)
read_filing-parse_with_example =
    read_filing-parse_with layouts f99_only ascii no_csv lenient layouts-IsListed reads content
      same_lines

-- The second read fails.
abbrev broken : Reads
broken = ok (codes "HDR") ∷ err (io (codes "timed out")) ∷ []

read_filing-Returns_example :
    (result : Result FecError (Lenient Filing)) × (read_filing layouts f99_only ascii no_csv strict
        broken
      ≡ some result)
read_filing-Returns_example = read_filing-Returns layouts f99_only ascii no_csv strict broken

-- Behind the cover, with one line to come that no table reads.
abbrev reader : FilingReader
reader = record {
  source = delimited (record { reader = ok (codes "ZZ9") ∷ []; line_no = 2; held = none });
  preamble = record {
    header = header;
    version = electronic 8 5;
    raw_form_type = codes "F99A";
    base_form_type = codes "F99";
    is_amendment = true;
    amends_filing = none;
    summary = cover;
  };
  body = new_body (electronic 8 5) strict;
}

next-Fused_example : Fused layouts f99_only ascii no_csv (next layouts f99_only ascii no_csv reader)
next-Fused_example = next-Fused layouts f99_only ascii no_csv reader (inr (refl, refl))
