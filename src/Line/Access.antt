-- ===== src/Line/Access.antt =====
-- src/parser/filing.rs: `ParsedLine::set` and `get`, over the names of the layout.
use hardmoney.Prelude.{
  ◌⊎◌, if◌then◌else◌, and_then, ℕ, ◌<◌, Option, none, some, ◌≡◌, ◌≢◌, ◌↔◌, refl, sym, ap, ◌∙◌,
  length, get_elem?, arith, Option-cases, inl, inr,
}
use hardmoney.Prelude.Result.{ok, err}
use hardmoney.Prelude.Update.{get_elem?-set_self, get_elem?-set_ne, length-set, lt_of_get_elem?}
use hardmoney.Text.{Str}
use hardmoney.Field.{normalize_form_type, normalize_field}
use hardmoney.Error.{FecError, unknown_field}
use hardmoney.Layout.{FieldDef, index_of}
use hardmoney.Layout.Lookup.{IsIndexed, index_of_iff}
use hardmoney.Line.{is_token, ParsedLine, get, set, set_found, set_at_index}

-- The layout is indexed, and there is one value for each of its fields.
pub record IsLine (line : ParsedLine) : Type 0 where
  pub indexed : IsIndexed line.layout
  pub full : length line.values ≡ length line.layout.fields

set_found-ok :
    (line line' : ParsedLine) (field value : Str) (o : Option ℕ)
    → set_found line field value o ≡ ok line'
    → (i : ℕ) × (o ≡ some i) × (line' ≡ set_at_index line i value)
set_found-ok line line' field value none h = cc
set_found-ok line line' field value (some i) h = (i, refl, cc)

set_found-err :
    (line : ParsedLine) (field value : Str) (o : Option ℕ) (e : FecError)
    → set_found line field value o ≡ err e
    → (o ≡ none) × (e ≡ unknown_field line.layout.table field)
set_found-err line field value none e h = (refl, cc)
set_found-err line field value (some i) e h = cc

pub get-missing :
    (line : ParsedLine) (field : Str) → index_of line.layout field ≡ none → get line field ≡ none
unfolding get
get-missing line field h = ap (λ o. and_then o (get_elem? line.values)) h

pub get-found :
    (line : ParsedLine) (field : Str) (i : ℕ)
    → index_of line.layout field ≡ some i
    → get line field ≡ get_elem? line.values i
unfolding get
get-found line field i h = ap (λ o. and_then o (get_elem? line.values)) h

-- How a stored value shows in the token: only that of the field in the first column does.
abbrev pub TokenFollows : FieldDef → Str → Str → Str → Type 0
TokenFollows f value old new =
    ((f.column ≡ 0) × (new ≡ normalize_form_type value)) ⊎ ((f.column ≢ 0) × (new ≡ old))

token-TokenFollows :
    (f : FieldDef) (value old : Str)
    → TokenFollows f value old (if is_token (some f) then normalize_form_type value else old)
token-TokenFollows f value old = ground arith

module _ (line : ParsedLine) (v : IsLine line) where
  -- A position that a name has in the layout lies among the values.
  index_in_values :
      (field : Str) (i : ℕ) → index_of line.layout field ≡ some i → i < length line.values
  index_in_values field i h =
      let f = (index_of_iff line.layout v.indexed field i).0 h in
      omega (arith, lt_of_get_elem? line.layout.fields i f.0 f.1, v.full)

  get-set_at_index :
      (field : Str) (i : ℕ) (value : Str)
      → index_of line.layout field ≡ some i
      → get (set_at_index line i value) field ≡ some (normalize_field value)
  unfolding set_at_index
  get-set_at_index field i value h =
      get-found (set_at_index line i value) field i h
      ∙ get_elem?-set_self line.values i (normalize_field value) (index_in_values field i h)

  get-set_at_index_ne :
      (field other : Str) (i : ℕ) (value : Str)
      → index_of line.layout field ≡ some i
      → other ≢ field
      → get (set_at_index line i value) other ≡ get line other
  unfolding set_at_index
  get-set_at_index_ne field other i value h n = elim (Option-cases (index_of line.layout other)) [
    | inl missing ↦
        get-missing (set_at_index line i value) other missing ∙ sym (get-missing line other missing)
    | inr (j, found) ↦
        get-found (set_at_index line i value) other j found
        ∙ get_elem?-set_ne line.values i j (normalize_field value) (distinct j found)
        ∙ sym (get-found line other j found)
  ]
    where
      distinct : (j : ℕ) → index_of line.layout other ≡ some j → i ≢ j
      distinct j found e =
          let f = (index_of_iff line.layout v.indexed field i).0 h in
          let g = (index_of_iff line.layout v.indexed other j).0 found in
          n (cc (e, f.1, f.2, g.1, g.2))

  set_at_index-IsLine : (i : ℕ) (value : Str) → IsLine (set_at_index line i value)
  unfolding set_at_index
  set_at_index-IsLine i value = record {
    indexed = v.indexed;
    full = length-set line.values i (normalize_field value) ∙ v.full;
  }

  set_at_index-TokenFollows :
      (field value : Str) (i : ℕ)
      → index_of line.layout field ≡ some i
      → (j : ℕ) × (f : FieldDef) × (get_elem? line.layout.fields j ≡ some f)
        × (f.name ≡ field)
        × TokenFollows f value line.raw_form_type (set_at_index line i value).raw_form_type
  unfolding set_at_index
  set_at_index-TokenFollows field value i h =
      let (f, at, name) = (index_of_iff line.layout v.indexed field i).0 h in
      (i, f, at, name, rw at (token-TokenFollows f value line.raw_form_type))

  set_at_index-rest :
      (i : ℕ) (value : Str)
      → ((set_at_index line i value).line_no ≡ line.line_no)
        × ((set_at_index line i value).layout ≡ line.layout)
  unfolding set_at_index
  set_at_index-rest i value = (refl, refl)

  -- On a record whose layout is indexed and that has one value for each field, a `set` that succeeds
  -- gives the field the normalised value, leaves every other name, the line number and the layout
  -- as they were, and keeps the record so. If the field stands in the first column, the token is
  -- the value normalised as a token; else the token is as it was.
  pub get-set :
      (field other value : Str) (line' : ParsedLine)
      → set line field value ≡ ok line'
      → (get line' field ≡ some (normalize_field value))
        × (other ≢ field → get line' other ≡ get line other)
        × (line'.line_no ≡ line.line_no)
        × (line'.layout ≡ line.layout)
        × ((j : ℕ) × (f : FieldDef) × (get_elem? line.layout.fields j ≡ some f)
            × (f.name ≡ field)
            × TokenFollows f value line.raw_form_type line'.raw_form_type)
        × IsLine line'
  unfolding set
  get-set field other value line' h =
      let (i, found, same) = set_found-ok line line' field value (index_of line.layout field) h in
      rw same (
        get-set_at_index field i value found,
        get-set_at_index_ne field other i value found,
        (set_at_index-rest i value).0,
        (set_at_index-rest i value).1,
        set_at_index-TokenFollows field value i found,
        set_at_index-IsLine i value,
      )

  -- On a record whose layout is indexed and that has one value for each field, a `set` fails
  -- exactly on a name that no field of the layout has, with an error that names the table and the
  -- field.
  pub set_unknown :
      (field value : Str) (e : FecError)
      → (set line field value ≡ err e) ↔ (
          (e ≡ unknown_field line.layout.table field)
          × ((i : ℕ) (f : FieldDef) → get_elem? line.layout.fields i ≡ some f → f.name ≢ field))
  unfolding set
  set_unknown field value e = (refused, λ h. refuses h.0 h.1)
    where
      refused :
          set_found line field value (index_of line.layout field) ≡ err e
          → (e ≡ unknown_field line.layout.table field)
            × ((i : ℕ) (f : FieldDef) → get_elem? line.layout.fields i ≡ some f → f.name ≢ field)
      refused h =
          let (missing, same) = set_found-err line field value (index_of line.layout field) e h in
          (same, λ i f q n. cc (missing, (index_of_iff line.layout v.indexed field i).1 (f, q, n)))

      refuses :
          e ≡ unknown_field line.layout.table field
          → ((i : ℕ) (f : FieldDef) → get_elem? line.layout.fields i ≡ some f → f.name ≢ field)
          → set_found line field value (index_of line.layout field) ≡ err e
      refuses same none_named = elim (Option-cases (index_of line.layout field)) [
        | inl missing ↦ ap (set_found line field value) missing ∙ ap err (sym same)
        | inr (i, found) ↦
            let f = (index_of_iff line.layout v.indexed field i).0 found in
            absurd (none_named i f.0 f.1 f.2)
      ]
