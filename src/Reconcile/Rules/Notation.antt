-- ===== src/Reconcile/Rules/Notation.antt =====
-- The macro `rules!`: one function for each of its forms.
use Prim.Native.String.{String}
use hardmoney.Prelude.{true, false, List, ◌++◌, map}
use hardmoney.Text.{codes}
use hardmoney.Table.{Table}
use hardmoney.Reconcile.{Column, Relation, ScheduleSum, Source, LineRule}

-- `"line" field { .. };` under a column.
abbrev pub rule : Column → String → String → Source → LineRule
rule column line field source = record {
  line = codes line;
  field = codes field;
  column = column;
  source = source;
}

-- `{ input }`
abbrev pub unruled : Source
unruled = Source.input

-- `{ = "x" + "y" .. - "z" .. }`
abbrev pub difference : List String → List String → Source
difference plus minus = Source.formula (
    map (λ t. record { line = codes t; negative = false }) plus
    ++ map (λ t. record { line = codes t; negative = true }) minus)

-- `{ = "x" + "y" .. }`
abbrev pub total : List String → Source
total plus = Source.formula (map (λ t. record { line = codes t; negative = false }) plus)

-- `Table["T1", "T2"].field`
abbrev pub on : Table → List String → String → ScheduleSum
on table tokens field = record { table = table; tokens = map codes tokens; field = codes field }

-- `{ <- .. }`
abbrev pub equals : List ScheduleSum → Source
equals = Source.schedules Relation.equal

-- `{ >= .. }`
abbrev pub covers : List ScheduleSum → Source
covers = Source.schedules Relation.at_least
