-- ===== src/Setup/Tables/Reading.antt =====
-- Which text a key of a row's object has, and which rows are saved.
use flamenco_manager.Common.{
  ℕ, zero, suc, String, ◌≡◌, refl, ◌∙◌, Bool, false, not, some, List, [], ◌∷◌, ◌++◌, map, filter,
  length, ◌==◌, eq_iff, eq_refl, arith, Bool-cases, inl, inr, ap,
}
use flamenco_manager.Common.StringSet.{has}
use flamenco_manager.Setup.Tables.{
  TableRow, header_keys, put, get, fill, row_object, data_table, is_no_default, save_data_tables,
}

-- The text of a row's n-th cell, empty where there is none.
abbrev pub text_at : ℕ → List String → String
text_at n [] = ""
text_at zero (c ∷ cells) = c
text_at (suc n) (c ∷ cells) = text_at n cells

get-put : (k v : String) (h : List (String × String)) → get k (put k v h) ≡ some v
unfolding get put
get-put k v [] = rw (eq_refl k) refl
get-put k v ((j, w) ∷ h) = ground (arith, get-put k v h)

get-put-other :
    (k j v : String) (h : List (String × String)) → (j == k) ≡ false → get k (put j v h) ≡ get k h
unfolding get put
get-put-other k j v [] n = rw n refl
get-put-other k j v ((i, w) ∷ h) n =
    ground (arith, get-put-other k j v h n, eq_iff i k, eq_iff i j, eq_iff j k)

get-fill-other :
    (k : String) (ks cells : List String) (h : List (String × String))
    → has ks k ≡ false
    → get k (fill ks cells h) ≡ get k h
unfolding fill has
get-fill-other k [] cells h n = refl
get-fill-other k (j ∷ ks) [] h n =
    get-fill-other k ks [] (put j "" h) (ground arith) ∙ get-put-other k j "" h (ground arith)
get-fill-other k (j ∷ ks) (c ∷ cells) h n =
    get-fill-other k ks cells (put j c h) (ground arith) ∙ get-put-other k j c h (ground arith)

get-fill :
    (before after : List String) (k : String) (cells : List String) (h : List (String × String))
    → has after k ≡ false
    → get k (fill (before ++ k ∷ after) cells h) ≡ some (text_at (length before) cells)
unfolding fill
get-fill [] after k [] h n = get-fill-other k after [] (put k "" h) n ∙ get-put k "" h
get-fill [] after k (c ∷ cells) h n = get-fill-other k after cells (put k c h) n ∙ get-put k c h
get-fill (j ∷ before) after k [] h n = get-fill before after k [] (put j "" h) n ∙ refl
get-fill (j ∷ before) after k (c ∷ cells) h n = get-fill before after k cells (put j c h) n

-- In the object of a row, the key of a header has the text of the cell under it, and the empty text
-- where the row has too few cells, unless a later header has the same key.
pub get-row_object :
    (before after : List String) (k : String) (r : TableRow)
    → has after k ≡ false
    → get k (row_object (before ++ k ∷ after) r) ≡ some (text_at (length before) r.cells)
unfolding row_object
get-row_object before after k r n = get-fill before after k r.cells [] n

-- Whether a row is saved, told from the cell under "name".
abbrev pub is_named : ℕ → TableRow → Bool
is_named n r = not (text_at n r.cells == "variable-name")

is_no_default-row_object :
    (before after : List String) (r : TableRow)
    → has after "name" ≡ false
    → is_no_default (row_object (before ++ "name" ∷ after) r) ≡ is_named (length before) r
unfolding is_no_default
is_no_default-row_object before after r n =
    rw (is_no_default, get-row_object before after "name" r n) refl

filter-row_object :
    (before after : List String) (rs : List TableRow)
    → has after "name" ≡ false
    → filter is_no_default (map (row_object (before ++ "name" ∷ after)) rs)
      ≡ map (row_object (before ++ "name" ∷ after)) (filter (is_named (length before)) rs)
filter-row_object before after [] n = refl
filter-row_object before after (r ∷ rs) n =
    let k = is_no_default-row_object before after r n in
    let ih = filter-row_object before after rs n in
    elim (Bool-cases (is_named (length before) r)) [ inl y ↦ rw (k, y, ih) | inr y ↦ rw (k, y, ih) ]

-- Where a table has a header with the key "name" (and no later one with the same key), exactly those of
-- its rows are saved, in their order, whose cell under that header is not "variable-name", the name of
-- a row that was added and not edited.
pub save_data_tables-filter :
    (stringify : List (List (String × String)) → String) (head : TableRow) (rs path : List TableRow)
    (before after : List String)
    → header_keys head.headers ≡ before ++ "name" ∷ after
    → has after "name" ≡ false
    → (save_data_tables stringify (head ∷ rs) path).0
      ≡ stringify
          (map (row_object (before ++ "name" ∷ after)) (filter (is_named (length before)) rs))
unfolding save_data_tables data_table
save_data_tables-filter stringify head rs path before after e n =
    rw e (ap stringify (filter-row_object before after rs n))
