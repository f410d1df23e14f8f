-- ===== src/Form/Engine.antt =====
-- What the regex crate is relied on for: whatever text the documented syntax reads is compiled,
-- and matches as the syntax says. Nothing in it is about the dispatch table.
use hardmoney.Prelude.{some, ◌≡◌, refl}
use hardmoney.Text.{Str}
use hardmoney.Form.Syntax.{Regexp, read, is_match_of}
use hardmoney.Form.{Regex}

pub record Reads (R : Regex) (text : Str) (re : Regexp) : Type 0 where
  pub regex : R.Compiled
  pub compiles : R.new text ≡ some regex
  pub matches_as : (s : Str) → R.is_match regex s ≡ is_match_of re s

-- The documented behaviour, at every text.
abbrev pub RegexLaws : Regex → Type 0
RegexLaws R = (text : Str) (re : Regexp) → read text ≡ some re → Reads R text re

-- An instance: a text is compiled to its reading.
abbrev pub by_reading : Regex
by_reading = record { Compiled = Regexp; new = read; is_match = is_match_of }

pub by_reading_laws : RegexLaws by_reading
by_reading_laws text re e = record { regex = re; compiles = e; matches_as = λ s. refl }
