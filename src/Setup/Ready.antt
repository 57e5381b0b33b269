-- ===== src/Setup/Ready.antt =====
-- static/websetup/websetup.js: what the page does when it is ready: the buttons of the editable tables and
-- the indicator that is shown while requests are out.
pub mod Adding
pub mod Loading
use flamenco_manager.Common.{
  ℕ, zero, suc, String, ◌≡◌, Bool, true, false, not, ◌&&◌, List, [], ◌∷◌, ◌++◌, map, filter, nat_eq,
  if◌then◌else◌,
}
use flamenco_manager.Common.StringSet.{has, delete}
use flamenco_manager.Setup.Tables.{TableRow}

-- A `tr` with its classes; the class `d-none` hides it.
pub record ClassedRow : Type 0 where
  pub classes : List String
  pub content : TableRow

-- `tr.d-none`.
unfoldable pub is_hidden : ClassedRow → Bool
unfolding has
is_hidden r = has r.classes "d-none"

-- `removeClass('d-none table-line')`.
unfoldable pub remove_classes : ClassedRow → ClassedRow
unfolding delete
remove_classes r = record r { classes = delete (delete r.classes "d-none") "table-line" }

-- `.table-add`, in an element with one table: clones of the hidden rows are appended without those classes.
unfoldable pub add_rows : List ClassedRow → List ClassedRow
unfolding is_hidden remove_classes
add_rows rows = rows ++ map remove_classes (filter is_hidden rows)

-- `.table-remove`, in the row at an index: the row is detached.
unfoldable pub remove_row : ℕ → List ClassedRow → List ClassedRow
remove_row n [] = []
remove_row zero (r ∷ rows) = rows
remove_row (suc n) (r ∷ rows) = r ∷ remove_row n rows

-- `tr:not(:hidden)`, which `dataTable` reads.
unfoldable pub visible_rows : List ClassedRow → List TableRow
unfolding is_hidden
visible_rows rows = map (λ (r : ClassedRow). r.content) (filter (λ r. not (is_hidden r)) rows)

-- jQuery's count of requests that are out, whether the handlers of `ajaxStart` and `ajaxStop` are set, and
-- whether `#loading-settings` is shown.
pub record Indicator : Type 0 where
  pub active : ℕ
  pub listening : Bool
  pub shown : Bool

-- A request begins: jQuery fires `ajaxStart` if no other is out.
unfoldable pub begin_request : Indicator → Indicator
begin_request i = record i {
  active = suc i.active;
  shown = if nat_eq i.active 0 && i.listening then true else i.shown;
}

-- A request ends and `left` remain: jQuery fires `ajaxStop` if none is out any more.
unfoldable pub end_request : ℕ → Indicator → Indicator
end_request left i = record i {
  active = left;
  shown = if nat_eq left 0 && i.listening then false else i.shown;
}

-- The script runs: the page shows the indicator, and `loadSetupData` has been called by `vueApp`.
unfoldable pub loaded : Indicator
unfolding begin_request
loaded = begin_request (record { active = 0; listening = false; shown = true })

-- The page is ready: `linkRequired` is called and the handlers are set.
unfoldable pub page_ready : Indicator → Indicator
unfolding begin_request
page_ready i = record (begin_request i) { listening = true }

pub data Step (i j : Indicator) : Type 0 where
  begins : j ≡ begin_request i → Step i j
  ends : (left : ℕ) → i.active ≡ suc left → j ≡ end_request left i → Step i j
  readies : i.listening ≡ false → j ≡ page_ready i → Step i j

pub data Reach (i : Indicator) : Indicator → Type 0 where
  here : Reach i i
  next : {j k : Indicator} → Reach i j → Step j k → Reach i k
