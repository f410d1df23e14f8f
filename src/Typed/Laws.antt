-- ===== src/Typed/Laws.antt =====
-- src/parser/typed.rs: the codes and names of the typed views.
use hardmoney.Line.{get, ParsedLine}
use hardmoney.Text.{join, trim, eq_str, is_empty, to_ascii_uppercase, Str}
use hardmoney.Prelude.{
  ◌⊎◌, not, and_then, keep_if, arith, Option, sym, ◌∙◌, All, List, ◌≡◌, refl, true, false, none,
  some, inl, inr, [], ◌∷◌, Bool-cases,
}
use hardmoney.Typed.{
  individual, organization, candidate, candidate_committee, committee, pac, party, or_else, flatten,
  non_empty, NameFields, EntityType, entity_from_code, entity_code, entity_is_known, first_code,
  entity_codes, string_of, combined_name, other,
}

eq_str_sound : (s t : Str) → eq_str s t ≡ true → s ≡ t
unfolding eq_str
eq_str_sound [] [] h = refl
eq_str_sound [] (d ∷ t) h = cc
eq_str_sound (c ∷ s) [] h = cc
eq_str_sound (c ∷ s) (d ∷ t) h = ground (arith, eq_str_sound s t)

-- A code in the list is read as what it stands for.
first_code-entity_code :
    (known : List (Str × EntityType)) (code : Str)
    → All (λ k. entity_code k.1 ≡ k.0) known
    → entity_code (first_code known code (other code)) ≡ code
unfolding entity_code
first_code-entity_code [] code h = refl
first_code-entity_code (k ∷ more) code h = elim (Bool-cases (eq_str code k.0)) [
  | inl q ↦ rw q (h.0 ∙ sym (eq_str_sound code k.0 q))
  | inr q ↦ rw q (first_code-entity_code more code h.1)
]

entity_from_code-known :
    (e : EntityType) → entity_is_known e ≡ true → entity_from_code (entity_code e) ≡ e
unfolding entity_from_code entity_code entity_is_known eq_str trim to_ascii_uppercase
entity_from_code-known individual h = refl
entity_from_code-known organization h = refl
entity_from_code-known candidate h = refl
entity_from_code-known candidate_committee h = refl
entity_from_code-known committee h = refl
entity_from_code-known pac h = refl
entity_from_code-known party h = refl
entity_from_code-known (other s) h = absurd (cc h)

entity_codes-own : All (λ k. entity_code k.1 ≡ k.0) entity_codes
unfolding entity_code
entity_codes-own = (refl, (refl, (refl, (refl, (refl, (refl, (refl, tt)))))))

-- An entity code that is read and written again is the code trimmed and in upper case, whether it is
-- a known code or not, so an unknown code is not kept as it was filed; and a known entity type is
-- read back from its code.
pub entity_code-entity_from_code :
    (code : Str) (e : EntityType)
    → entity_is_known e ≡ true
    → (entity_code (entity_from_code code) ≡ to_ascii_uppercase (trim code))
      × (entity_from_code (entity_code e) ≡ e)
unfolding entity_from_code
entity_code-entity_from_code code e h = (
  first_code-entity_code entity_codes (to_ascii_uppercase (trim code)) entity_codes-own,
  entity_from_code-known e h,
)

keep_filled :
    (o : Option Str) (v : Str) → keep_if (λ v. not (is_empty v)) o ≡ some v → is_empty v ≡ false
keep_filled none v h = absurd (cc h)
keep_filled (some []) v h = absurd (cc h)
keep_filled (some (c ∷ s)) v h = cc h

string_of-filled :
    (line : ParsedLine) (field v : Str) → string_of line field ≡ some v → is_empty v ≡ false
unfolding string_of
string_of-filled line field v h = keep_filled (get line field) v h

non_empty-filled : (s v : Str) → non_empty s ≡ some v → is_empty v ≡ false
non_empty-filled [] v h = absurd (cc h)
non_empty-filled (c ∷ s) v h = cc h

-- What makes up a name is not blank.
abbrev IsFilled : Option Str → Type 0
IsFilled o = (v : Str) → o ≡ some v → is_empty v ≡ false

or_else-IsFilled : (o p : Option Str) → IsFilled o → IsFilled p → IsFilled (or_else o p)
or_else-IsFilled none p h k = k
or_else-IsFilled (some s) p h k = h

organization-IsFilled :
    (line : ParsedLine) (o : Option Str) → IsFilled (and_then o (string_of line))
organization-IsFilled line none v h = absurd (cc h)
organization-IsFilled line (some field) v h = string_of-filled line field v h

join-filled : (p : Str) (ps : List Str) → is_empty p ≡ false → is_empty (join b' ' (p ∷ ps)) ≡ false
unfolding join
join-filled [] ps h = absurd (cc h)
join-filled (c ∷ p) [] h = refl
join-filled (c ∷ p) (q ∷ ps) h = refl

-- Parts that join to nothing are not there.
flatten-none :
    (parts : List (Option Str))
    → All IsFilled parts
    → non_empty (join b' ' (flatten parts)) ≡ none
    → All (λ o. o ≡ none) parts
flatten-none [] f h = tt
flatten-none (none ∷ parts) f h = (refl, flatten-none parts f.1 h)
flatten-none (some p ∷ parts) f h =
    absurd (cc (rw (join-filled p (flatten parts) (f.0 p refl)) at h))

or_else-none : (o p : Option Str) → or_else o p ≡ none → (o ≡ none) × (p ≡ none)
or_else-none none p h = (refl, h)
or_else-none (some s) p h = absurd (cc h)

-- The fields that a name is combined from, but for the organization's.
abbrev pub name_parts : NameFields → List Str
name_parts f = f.single ∷ f.prefix ∷ f.first ∷ f.middle ∷ f.last ∷ f.suffix ∷ []

-- Either there is a name, or the parts that would make one are not there.
named_or_none :
    (o : Option Str) (P Q : Type 0)
    → IsFilled o
    → (o ≡ none → P × Q)
    → ((n : Str) × (o ≡ some n) × (is_empty n ≡ false)) ⊎ ((o ≡ none) × P × Q)
named_or_none none P Q f h = inr (refl, (h refl).0, (h refl).1)
named_or_none (some n) P Q f h = inl (n, refl, f n refl)

-- Either a record has a combined name, which is not blank; or it has none, and then the single name
-- and all five parts are blank, as is the organization's name where the record has that field.
pub combined_name-filled :
    (line : ParsedLine) (f : NameFields)
    → ((n : Str) × (combined_name line f ≡ some n) × (is_empty n ≡ false))
      ⊎ ((combined_name line f ≡ none)
          × All (λ g. string_of line g ≡ none) (name_parts f)
          × (and_then f.organization (string_of line) ≡ none))
unfolding combined_name
combined_name-filled line f =
    let parts =
      string_of line f.prefix
      ∷ string_of line f.first
      ∷ string_of line f.middle
      ∷ string_of line f.last
      ∷ string_of line f.suffix
      ∷ [] in
    let own = λ (g : Str) (v : Str) (e : string_of line g ≡ some v). string_of-filled line g v e in
    named_or_none _ (All (λ g. string_of line g ≡ none) (name_parts f))
      (and_then f.organization (string_of line) ≡ none)
      (or_else-IsFilled (string_of line f.single) _ (own f.single) (
        or_else-IsFilled (and_then f.organization (string_of line)) _
          (organization-IsFilled line f.organization)
          (λ v e. non_empty-filled (join b' ' (flatten parts)) v e)))
      (λ h.
        let (single, more) = or_else-none (string_of line f.single) _ h in
        let (no_organization, rest) =
          or_else-none (and_then f.organization (string_of line)) _ more in
        let none_of =
          flatten-none parts
            (own f.prefix, (own f.first, (own f.middle, (own f.last, (own f.suffix, tt))))) rest in
        ((single, none_of), no_organization))
