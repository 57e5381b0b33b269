-- ===== src/Dashboard/Storage.antt =====
-- static/dashboard.js: the selection in the browser's local storage (`loadSelectedWorkers` and the
-- watcher of `selected_worker_ids`).
use flamenco_manager.Common.{
  String, ◌≡◌, refl, ◌≢◌, Option, none, some, List, [], ◌∷◌, if◌then◌else◌, ◌==◌, eq_iff,
  Bool-cases, inl, inr,
}

-- `JSON` on lists of texts. `parse` gives `none` for its SyntaxError and `some none` for a value that
-- counts as false; no value of another kind is ever stored under the key.
pub record Json : Type 0 where
  pub stringify : List String → String
  pub parse : String → Option (Option (List String))
  pub parse-stringify : (xs : List String) → parse (stringify xs) ≡ some (some xs)
  pub stringify-ne-empty : (xs : List String) → stringify xs ≢ ""

module _ (json : Json) where
  -- The watcher of `selected_worker_ids`: what the storage then holds under the key.
  unfoldable pub store_selected_workers : List String → Option String
  store_selected_workers [] = none
  store_selected_workers (id ∷ ids) = some (json.stringify (id ∷ ids))

  -- `JSON.parse(…) || []` in its `try`: the ids, and what the storage holds afterwards.
  unfoldable pub parse_selected :
      String → Option (Option (List String)) → List String × Option String
  parse_selected stored none = ([], none)
  parse_selected stored (some none) = ([], some stored)
  parse_selected stored (some (some ids)) = (ids, some stored)

  -- `loadSelectedWorkers`.
  unfoldable pub load_selected_workers : Option String → List String × Option String
  unfolding parse_selected
  load_selected_workers none = ([], none)
  load_selected_workers (some workers_as_json) =
      if workers_as_json == ""
      then ([], some workers_as_json)
      else parse_selected workers_as_json (json.parse workers_as_json)

  -- A page that is loaded again starts with the selection that was stored last, and leaves the storage
  -- as it is.
  pub load_selected_workers-store_selected_workers :
      (ids : List String)
      → load_selected_workers (store_selected_workers ids) ≡ (ids, store_selected_workers ids)
  unfolding load_selected_workers store_selected_workers
  load_selected_workers-store_selected_workers [] = refl
  load_selected_workers-store_selected_workers (id ∷ ids) =
      elim (Bool-cases (json.stringify (id ∷ ids) == "")) [
        | inl e ↦ absurd (json.stringify-ne-empty (id ∷ ids) ((eq_iff _ "").0 e))
        | inr n ↦ rw (n, json.parse-stringify (id ∷ ids))
      ]
