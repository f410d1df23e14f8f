-- ===== src/Layout/Lookup.antt =====
-- src/parser/schema.rs: `Layout::index_of` against the list of the layout's fields.
use Prim.Native.Nat.Ordering.{lt, eq, gt}
use hardmoney.Prelude.{
  ℕ, ◌<◌, [], ◌∷◌, Option, none, some, ◌≡◌, ◌↔◌, refl, ap, ◌∙◌, sym, arith, length, get_elem?,
}
use hardmoney.Prelude.Update.{lt_of_get_elem?}
use native.Mathlib.Nat.{lt_trans}
use hardmoney.Text.{Str}
use hardmoney.Layout.Search.{IsPivot, binary_search-pivot, binary_search-eq}
use hardmoney.Layout.{
  FieldDef, Layout, cmp_str, probe, probe_entry, name_order, binary_search, entry_at, index_of,
}

pub cmp_str_refl : (s : Str) → cmp_str s s ≡ eq
unfolding cmp_str
cmp_str_refl [] = refl
cmp_str_refl (c ∷ s) = ground (arith, cmp_str_refl s)

pub eq_of_cmp_str : (s t : Str) → cmp_str s t ≡ eq → s ≡ t
unfolding cmp_str
eq_of_cmp_str [] [] h = refl
eq_of_cmp_str [] (d ∷ t) h = cc
eq_of_cmp_str (c ∷ s) [] h = cc
eq_of_cmp_str (c ∷ s) (d ∷ t) h = ground (arith, eq_of_cmp_str s t)

pub cmp_str_flip : (s t : Str) → cmp_str s t ≡ lt → cmp_str t s ≡ gt
unfolding cmp_str
cmp_str_flip [] [] h = cc
cmp_str_flip [] (d ∷ t) h = refl
cmp_str_flip (c ∷ s) [] h = cc
cmp_str_flip (c ∷ s) (d ∷ t) h = ground (arith, cmp_str_flip s t)

-- The field that position `k` of the index names.
pub record Entry (l : Layout) (k : ℕ) : Type 0 where
  pub at : ℕ
  pub def : FieldDef
  pub indexed : get_elem? l.by_name k ≡ some at
  pub listed : get_elem? l.fields at ≡ some def

-- `by_name` lists the positions of all fields, in strictly ascending order of their names.
pub record IsIndexed (l : Layout) : Type 0 where
  pub entry : (k : ℕ) → k < length l.by_name → Entry l k
  pub ascending :
      (j k : ℕ) → j < k → (e : Entry l j) (f : Entry l k) → cmp_str e.def.name f.def.name ≡ lt
  pub complete :
      (i : ℕ) (f : FieldDef)
      → get_elem? l.fields i ≡ some f
      → (k : ℕ) × (get_elem? l.by_name k ≡ some i)

module _ (l : Layout) where
  probe-Entry : (name : Str) (k : ℕ) (e : Entry l k) → probe l name k ≡ cmp_str e.def.name name
  probe-Entry name k e = ap (probe_entry l name) e.indexed ∙ ap (name_order name) e.listed

  probe-eq : (name : Str) (k : ℕ) → probe l name k ≡ eq → (e : Entry l k) × (e.def.name ≡ name)
  probe-eq name k h = go (get_elem? l.by_name k) refl h
    where
      found :
          (i : ℕ)
          → get_elem? l.by_name k ≡ some i
          → (o : Option FieldDef) → get_elem? l.fields i ≡ o
          → name_order name o ≡ eq
          → (e : Entry l k) × (e.def.name ≡ name)
      found i q none e h = cc
      found i q (some f) e h =
          (record { at = i; def = f; indexed = q; listed = e }, eq_of_cmp_str f.name name h)

      go :
          (o : Option ℕ)
          → get_elem? l.by_name k ≡ o
          → probe_entry l name o ≡ eq
          → (e : Entry l k) × (e.def.name ≡ name)
      go none e h = cc
      go (some i) e h = found i e (get_elem? l.fields i) refl h

  module _ (v : IsIndexed l) where
    Entry-IsPivot :
        (name : Str) (k : ℕ) (e : Entry l k)
        → e.def.name ≡ name
        → IsPivot (probe l name) (length l.by_name) k
    Entry-IsPivot name k e n = record {
      inside = lt_of_get_elem? l.by_name k e.at e.indexed;
      here = probe-Entry name k e ∙ ap (λ s. cmp_str s name) n ∙ cmp_str_refl name;
      before = λ i h.
          let f = v.entry i (lt_trans h (lt_of_get_elem? l.by_name k e.at e.indexed)) in
          probe-Entry name i f ∙ ap (cmp_str f.def.name) (sym n) ∙ v.ascending i k h f e;
      behind = λ i h top.
          let f = v.entry i top in
          probe-Entry name i f
          ∙ ap (cmp_str f.def.name) (sym n)
          ∙ cmp_str_flip e.def.name f.def.name (v.ascending k i h e f);
    }

    index_of_listed :
        (name : Str) (i : ℕ) (f : FieldDef)
        → get_elem? l.fields i ≡ some f
        → f.name ≡ name
        → index_of l name ≡ some i
    unfolding index_of
    index_of_listed name i f q n =
        let (k, at) = v.complete i f q in
        let e : Entry l k = record { at = i; def = f; indexed = at; listed = q } in
        ap (entry_at l.by_name) (binary_search-pivot _ _ k (Entry-IsPivot name k e n)) ∙ at

    listed_index_of :
        (name : Str) (i : ℕ)
        → index_of l name ≡ some i
        → (f : FieldDef) × (get_elem? l.fields i ≡ some f) × (f.name ≡ name)
    unfolding index_of
    listed_index_of name i h = go (binary_search (probe l name) (length l.by_name)) refl h
      where
        go :
            (o : Option ℕ)
            → binary_search (probe l name) (length l.by_name) ≡ o
            → entry_at l.by_name o ≡ some i
            → (f : FieldDef) × (get_elem? l.fields i ≡ some f) × (f.name ≡ name)
        go none q e = cc
        go (some k) q e =
            let (entry, n) =
              probe-eq name k (binary_search-eq (probe l name) (length l.by_name) k q) in
            (entry.def, cc (entry.indexed, e, entry.listed), n)

    -- In an indexed layout (`by_name` lists all fields in strictly ascending order of their names)
    -- the binary search finds a name at a position exactly if the field there has that name.
    pub index_of_iff :
        (name : Str) (i : ℕ)
        → (index_of l name ≡ some i)
          ↔ ((f : FieldDef) × (get_elem? l.fields i ≡ some f) × (f.name ≡ name))
    index_of_iff name i = (listed_index_of name i, λ h. index_of_listed name i h.0 h.1 h.2)
