-- ===== src/Form/Reach.antt =====
-- src/parser/form.rs: a token for each table, and where the dispatch sends it.
use hardmoney.Prelude.{none, some, ◌≡◌, ◌≢◌, refl, ◌∙◌}
use hardmoney.Text.{Str, codes, trim}
use hardmoney.Table.{
  Table, f1, f10, f105, f13, f132, f133, f1m, f1s, f2, f24, f2s, f3, f3l, f3p, f3p31, f3ps, f3pz1,
  f3pz2, f3s, f3x, f3z, f3z1, f3z2, f4, f5, f56, f57, f6, f65, f7, f76, f8, f82, f83, f9, f91, f92,
  f93, f94, f99, h1, h2, h3, h4, h5, h6, hdr, sch_a, sch_a3l, sch_b, sch_c, sch_c1, sch_c2, sch_d,
  sch_e, sch_f, sch_i, sch_l, text,
}
use hardmoney.Form.Pattern.{patterns, matches, fold}
use hardmoney.Form.Engine.{RegexLaws}
use hardmoney.Form.Laws.{dispatch, first_match, table_for_form_type-dispatch}
use hardmoney.Form.{Regex, table_for_form_type}

-- A token that the FEC writes on the records of a table.
pub token : Table → Str
token f1 = codes "F1N"
token f10 = codes "F10"
token f105 = codes "F105"
token f13 = codes "F13N"
token f132 = codes "F132"
token f133 = codes "F133"
token f1m = codes "F1MN"
token f1s = codes "F1S"
token f2 = codes "F2N"
token f24 = codes "F24N"
token f2s = codes "F2S"
token f3 = codes "F3N"
token f3l = codes "F3LN"
token f3p = codes "F3PN"
token f3p31 = codes "F3P31"
token f3ps = codes "F3PS"
token f3pz1 = codes "F3PZ1"
token f3pz2 = codes "F3PZ2"
token f3s = codes "F3S"
token f3x = codes "F3XN"
token f3z = codes "F3ZT"
token f3z1 = codes "F3Z1"
token f3z2 = codes "F3Z2"
token f4 = codes "F4N"
token f5 = codes "F5N"
token f56 = codes "F56"
token f57 = codes "F57"
token f6 = codes "F6N"
token f65 = codes "F65"
token f7 = codes "F7N"
token f76 = codes "F76"
token f8 = codes "F8N"
token f82 = codes "F8II"
token f83 = codes "F8III"
token f9 = codes "F9N"
token f91 = codes "F91"
token f92 = codes "F92"
token f93 = codes "F93"
token f94 = codes "F94"
token f99 = codes "F99"
token h1 = codes "H1"
token h2 = codes "H2"
token h3 = codes "H3"
token h4 = codes "H4"
token h5 = codes "H5"
token h6 = codes "H6"
token hdr = codes "HDR"
token sch_a = codes "SA11AI"
token sch_a3l = codes "SA3L"
token sch_b = codes "SB21B"
token sch_c = codes "SC/10"
token sch_c1 = codes "SC1"
token sch_c2 = codes "SC2"
token sch_d = codes "SD9"
token sch_e = codes "SE"
token sch_f = codes "SF"
token sch_i = codes "SI"
token sch_l = codes "SL"
token text = codes "TEXT"

dispatch-token : (t : Table) → t ≢ hdr → dispatch (token t) ≡ some t
unfolding dispatch first_match patterns matches fold trim token
dispatch-token f1 h = refl
dispatch-token f10 h = refl
dispatch-token f105 h = refl
dispatch-token f13 h = refl
dispatch-token f132 h = refl
dispatch-token f133 h = refl
dispatch-token f1m h = refl
dispatch-token f1s h = refl
dispatch-token f2 h = refl
dispatch-token f24 h = refl
dispatch-token f2s h = refl
dispatch-token f3 h = refl
dispatch-token f3l h = refl
dispatch-token f3p h = refl
dispatch-token f3p31 h = refl
dispatch-token f3ps h = refl
dispatch-token f3pz1 h = refl
dispatch-token f3pz2 h = refl
dispatch-token f3s h = refl
dispatch-token f3x h = refl
dispatch-token f3z h = refl
dispatch-token f3z1 h = refl
dispatch-token f3z2 h = refl
dispatch-token f4 h = refl
dispatch-token f5 h = refl
dispatch-token f56 h = refl
dispatch-token f57 h = refl
dispatch-token f6 h = refl
dispatch-token f65 h = refl
dispatch-token f7 h = refl
dispatch-token f76 h = refl
dispatch-token f8 h = refl
dispatch-token f82 h = refl
dispatch-token f83 h = refl
dispatch-token f9 h = refl
dispatch-token f91 h = refl
dispatch-token f92 h = refl
dispatch-token f93 h = refl
dispatch-token f94 h = refl
dispatch-token f99 h = refl
dispatch-token h1 h = refl
dispatch-token h2 h = refl
dispatch-token h3 h = refl
dispatch-token h4 h = refl
dispatch-token h5 h = refl
dispatch-token h6 h = refl
dispatch-token hdr h = absurd (h refl)
dispatch-token sch_a h = refl
dispatch-token sch_a3l h = refl
dispatch-token sch_b h = refl
dispatch-token sch_c h = refl
dispatch-token sch_c1 h = refl
dispatch-token sch_c2 h = refl
dispatch-token sch_d h = refl
dispatch-token sch_e h = refl
dispatch-token sch_f h = refl
dispatch-token sch_i h = refl
dispatch-token sch_l h = refl
dispatch-token text h = refl

dispatch_blank : (dispatch (token hdr) ≡ none) × (dispatch (codes "") ≡ none)
unfolding dispatch first_match patterns matches fold trim token
dispatch_blank = (refl, refl)

-- If the regex crate compiles every text that its documented syntax reads, and matches as the
-- syntax says, then every table but that of the header has a token that reaches it; the token of the header and the blank
-- one reach none.
pub table_for_form_type-token :
    (R : Regex)
    → RegexLaws R
    → ((t : Table) → t ≢ hdr → table_for_form_type R (token t) ≡ some t)
      × (table_for_form_type R (token hdr) ≡ none)
      × (table_for_form_type R (codes "") ≡ none)
table_for_form_type-token R h = (
  λ t n. table_for_form_type-dispatch R h (token t) ∙ dispatch-token t n,
  table_for_form_type-dispatch R h (token hdr) ∙ dispatch_blank.0,
  table_for_form_type-dispatch R h (codes "") ∙ dispatch_blank.1,
)
