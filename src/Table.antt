-- ===== src/Table.antt =====
-- `Table`: the closed set of record formats, one for each file of data/fec-csv-sources/, from which
-- build.rs (`variant_name`, `generate`) writes the enum.
use hardmoney.Prelude.{
  [], ◌∷◌, List, ℕ, zero, suc, Bool, true, Option, none, some, ◌≡◌, ◌↔◌, refl, ap, ◌==◌, ==_iff,
}
use hardmoney.Text.{Str, codes}

pub data Table : Type 0 where
  f1 f10 f105 f13 f132 f133 f1m f1s f2 f24 : Table
  f2s f3 f3l f3p f3p31 f3ps f3pz1 f3pz2 f3s f3x : Table
  f3z f3z1 f3z2 f4 f5 f56 f57 f6 f65 f7 : Table
  f76 f8 f82 f83 f9 f91 f92 f93 f94 f99 : Table
  h1 h2 h3 h4 h5 h6 hdr sch_a sch_a3l sch_b : Table
  sch_c sch_c1 sch_c2 sch_d sch_e sch_f sch_i sch_l text : Table

-- The name of the file: `Table::as_str`.
unfoldable pub as_str : Table → Str
as_str f1 = codes "F1"
as_str f10 = codes "F10"
as_str f105 = codes "F105"
as_str f13 = codes "F13"
as_str f132 = codes "F132"
as_str f133 = codes "F133"
as_str f1m = codes "F1M"
as_str f1s = codes "F1S"
as_str f2 = codes "F2"
as_str f24 = codes "F24"
as_str f2s = codes "F2S"
as_str f3 = codes "F3"
as_str f3l = codes "F3L"
as_str f3p = codes "F3P"
as_str f3p31 = codes "F3P31"
as_str f3ps = codes "F3PS"
as_str f3pz1 = codes "F3PZ1"
as_str f3pz2 = codes "F3PZ2"
as_str f3s = codes "F3S"
as_str f3x = codes "F3X"
as_str f3z = codes "F3Z"
as_str f3z1 = codes "F3Z1"
as_str f3z2 = codes "F3Z2"
as_str f4 = codes "F4"
as_str f5 = codes "F5"
as_str f56 = codes "F56"
as_str f57 = codes "F57"
as_str f6 = codes "F6"
as_str f65 = codes "F65"
as_str f7 = codes "F7"
as_str f76 = codes "F76"
as_str f8 = codes "F8"
as_str f82 = codes "F82"
as_str f83 = codes "F83"
as_str f9 = codes "F9"
as_str f91 = codes "F91"
as_str f92 = codes "F92"
as_str f93 = codes "F93"
as_str f94 = codes "F94"
as_str f99 = codes "F99"
as_str h1 = codes "H1"
as_str h2 = codes "H2"
as_str h3 = codes "H3"
as_str h4 = codes "H4"
as_str h5 = codes "H5"
as_str h6 = codes "H6"
as_str hdr = codes "HDR"
as_str sch_a = codes "SchA"
as_str sch_a3l = codes "SchA3L"
as_str sch_b = codes "SchB"
as_str sch_c = codes "SchC"
as_str sch_c1 = codes "SchC1"
as_str sch_c2 = codes "SchC2"
as_str sch_d = codes "SchD"
as_str sch_e = codes "SchE"
as_str sch_f = codes "SchF"
as_str sch_i = codes "SchI"
as_str sch_l = codes "SchL"
as_str text = codes "TEXT"

-- The position in name order.
abbrev index : Table → ℕ
index f1 = 0
index f10 = 1
index f105 = 2
index f13 = 3
index f132 = 4
index f133 = 5
index f1m = 6
index f1s = 7
index f2 = 8
index f24 = 9
index f2s = 10
index f3 = 11
index f3l = 12
index f3p = 13
index f3p31 = 14
index f3ps = 15
index f3pz1 = 16
index f3pz2 = 17
index f3s = 18
index f3x = 19
index f3z = 20
index f3z1 = 21
index f3z2 = 22
index f4 = 23
index f5 = 24
index f56 = 25
index f57 = 26
index f6 = 27
index f65 = 28
index f7 = 29
index f76 = 30
index f8 = 31
index f82 = 32
index f83 = 33
index f9 = 34
index f91 = 35
index f92 = 36
index f93 = 37
index f94 = 38
index f99 = 39
index h1 = 40
index h2 = 41
index h3 = 42
index h4 = 43
index h5 = 44
index h6 = 45
index hdr = 46
index sch_a = 47
index sch_a3l = 48
index sch_b = 49
index sch_c = 50
index sch_c1 = 51
index sch_c2 = 52
index sch_d = 53
index sch_e = 54
index sch_f = 55
index sch_i = 56
index sch_l = 57
index text = 58

abbrev below : ℕ → List Table → Option Table
below i [] = none
below zero (t ∷ ts) = some t
below (suc i) (t ∷ ts) = below i ts

-- `Table::ALL`
abbrev pub all_tables : List Table
all_tables =
    f1 ∷ f10 ∷ f105 ∷ f13 ∷ f132 ∷ f133 ∷ f1m ∷ f1s ∷ f2 ∷ f24 ∷ f2s ∷ f3 ∷ f3l ∷ f3p ∷ f3p31 ∷ f3ps
    ∷ f3pz1 ∷ f3pz2 ∷ f3s ∷ f3x ∷ f3z ∷ f3z1 ∷ f3z2 ∷ f4 ∷ f5 ∷ f56 ∷ f57 ∷ f6 ∷ f65 ∷ f7 ∷ f76 ∷ f8
    ∷ f82 ∷ f83 ∷ f9 ∷ f91 ∷ f92 ∷ f93 ∷ f94 ∷ f99 ∷ h1 ∷ h2 ∷ h3 ∷ h4 ∷ h5 ∷ h6 ∷ hdr ∷ sch_a
    ∷ sch_a3l ∷ sch_b ∷ sch_c ∷ sch_c1 ∷ sch_c2 ∷ sch_d ∷ sch_e ∷ sch_f ∷ sch_i ∷ sch_l ∷ text ∷ []

below-index : (t : Table) → below (index t) all_tables ≡ some t
below-index f1 = refl
below-index f10 = refl
below-index f105 = refl
below-index f13 = refl
below-index f132 = refl
below-index f133 = refl
below-index f1m = refl
below-index f1s = refl
below-index f2 = refl
below-index f24 = refl
below-index f2s = refl
below-index f3 = refl
below-index f3l = refl
below-index f3p = refl
below-index f3p31 = refl
below-index f3ps = refl
below-index f3pz1 = refl
below-index f3pz2 = refl
below-index f3s = refl
below-index f3x = refl
below-index f3z = refl
below-index f3z1 = refl
below-index f3z2 = refl
below-index f4 = refl
below-index f5 = refl
below-index f56 = refl
below-index f57 = refl
below-index f6 = refl
below-index f65 = refl
below-index f7 = refl
below-index f76 = refl
below-index f8 = refl
below-index f82 = refl
below-index f83 = refl
below-index f9 = refl
below-index f91 = refl
below-index f92 = refl
below-index f93 = refl
below-index f94 = refl
below-index f99 = refl
below-index h1 = refl
below-index h2 = refl
below-index h3 = refl
below-index h4 = refl
below-index h5 = refl
below-index h6 = refl
below-index hdr = refl
below-index sch_a = refl
below-index sch_a3l = refl
below-index sch_b = refl
below-index sch_c = refl
below-index sch_c1 = refl
below-index sch_c2 = refl
below-index sch_d = refl
below-index sch_e = refl
below-index sch_f = refl
below-index sch_i = refl
below-index sch_l = refl
below-index text = refl

-- The derived `PartialEq`.
unfoldable pub eq_table : Table → Table → Bool
eq_table t u = index t == index u

index-injective : (t u : Table) → index t ≡ index u → t ≡ u
index-injective t u e = cc (below-index t, ap (λ i. below i all_tables) e, below-index u)

pub eq_table_iff : (t u : Table) → (eq_table t u ≡ true) ↔ (t ≡ u)
unfolding eq_table
eq_table_iff t u = (
  λ h. index-injective t u ((==_iff (index t) (index u)).0 h),
  λ e. (==_iff (index t) (index u)).1 (ap index e),
)
