-- ===== src/Setup/Ready/Adding.antt =====
-- What a click on the button that adds a row does to the saved values.
use mathlib.Core.List.{append-nil, map-append}
use flamenco_manager.Common.{
  ℕ, String, ◌≡◌, refl, sym, ap, ◌∙◌, false, not, List, [], ◌∷◌, ◌++◌, map, filter, length, All,
  arith, filter-append, eq_refl,
}
use flamenco_manager.Common.StringSet.{has, delete, has-delete}
use flamenco_manager.Setup.Tables.{TableRow, header_keys, row_object, save_data_tables}
use flamenco_manager.Setup.Tables.Reading.{text_at, is_named, save_data_tables-filter}
use flamenco_manager.Setup.Ready.{ClassedRow, is_hidden, remove_classes, add_rows, visible_rows}

is_hidden-remove_classes : (r : ClassedRow) → is_hidden (remove_classes r) ≡ false
unfolding is_hidden remove_classes
is_hidden-remove_classes r = ground (
  arith,
  has-delete (delete r.classes "d-none") "table-line" "d-none",
  has-delete r.classes "d-none" "d-none",
  eq_refl "d-none",
)

visible_rows-remove_classes :
    (rows : List ClassedRow)
    → visible_rows (map remove_classes rows) ≡ map (λ (r : ClassedRow). r.content) rows
unfolding visible_rows
visible_rows-remove_classes [] = refl
visible_rows-remove_classes (r ∷ rows) = rw (is_hidden-remove_classes r) (
    ap (λ l. (remove_classes r).content ∷ l) (visible_rows-remove_classes rows)
    ∙ unfold remove_classes in refl)

-- The visible rows after a click are those before it and the contents of the hidden rows.
visible_rows-add_rows :
    (rows : List ClassedRow)
    → visible_rows (add_rows rows)
      ≡ visible_rows rows ++ map (λ (r : ClassedRow). r.content) (filter is_hidden rows)
unfolding visible_rows add_rows
visible_rows-add_rows rows =
    let c = λ (r : ClassedRow). r.content in
    let p = λ (r : ClassedRow). not (is_hidden r) in
    let added = map remove_classes (filter is_hidden rows) in
    ap (map c) (filter-append p rows added)
    ∙ map-append c (filter p rows) (filter p added)
    ∙ ap (λ l. map c (filter p rows) ++ l) (visible_rows-remove_classes (filter is_hidden rows))

-- Rows that have the name of a row that was not edited are not saved.
filter-is_named :
    (n : ℕ) (rows : List ClassedRow)
    → All (λ (r : ClassedRow). text_at n r.content.cells ≡ "variable-name") rows
    → filter (is_named n) (map (λ (r : ClassedRow). r.content) rows) ≡ []
filter-is_named n [] h = refl
filter-is_named n (r ∷ rows) h = rw h.0 (filter-is_named n rows h.1)

-- A click on the button that adds a row does not change what is saved, as long as the row is not edited: if
-- the table has a header with the key "name" (and no later one with that key), and the hidden rows
-- that are cloned have "variable-name" there, the saved value is that of the table before the click.
pub save_data_tables-add_rows :
    (stringify : List (List (String × String)) → String) (rows : List ClassedRow)
    (path : List TableRow) (head : TableRow) (body : List TableRow) (before after : List String)
    → visible_rows rows ≡ head ∷ body
    → header_keys head.headers ≡ before ++ "name" ∷ after
    → has after "name" ≡ false
    → All
        (λ (r : ClassedRow). text_at (length before) r.content.cells ≡ "variable-name")
        (filter is_hidden rows)
    → (save_data_tables stringify (visible_rows (add_rows rows)) path).0
      ≡ (save_data_tables stringify (visible_rows rows) path).0
save_data_tables-add_rows stringify rows path head body before after v k n h =
    let c = λ (r : ClassedRow). r.content in
    let added = map c (filter is_hidden rows) in
    let keys = before ++ "name" ∷ after in
    let kept : filter (is_named (length before)) (body ++ added)
        ≡ filter (is_named (length before)) body =
      filter-append (is_named (length before)) body added
      ∙ ap (λ l. filter (is_named (length before)) body ++ l)
          (filter-is_named (length before) (filter is_hidden rows) h)
      ∙ append-nil _ in
    let all : visible_rows (add_rows rows) ≡ head ∷ (body ++ added) =
      visible_rows-add_rows rows ∙ ap (λ l. l ++ added) v in
    rw (all, v)
      (save_data_tables-filter stringify head (body ++ added) path before after k n
        ∙ ap (λ l. stringify (map (row_object keys) l)) kept
        ∙ sym (save_data_tables-filter stringify head body path before after k n))
