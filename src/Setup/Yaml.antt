-- ===== src/Setup/Yaml.antt =====
-- static/websetup/websetup.js: the component `yaml-editor`, which shows the configuration as YAML in an
-- ace editor.
pub mod Editing
use flamenco_manager.Common.{
  ℕ, zero, suc, ◌+◌, ◌<◌, String, ◌≡◌, Bool, true, false, Option, none, some, List, [], ◌∷◌,
}
use flamenco_manager.Restart.{restart, Effect as RestartEffect}
use flamenco_manager.Setup.Config.{Config, Effect, SaveOptions, Loaded, yaml_save_content}

-- ace.js is a library: what the component uses of it. Rows count from zero and lines from one.
pub record Ace : Type 1 where
  pub Editor : Type 0
  -- `ace.edit(id)`, at the text of the element with that id.
  pub edit : (id text : String) → Editor
  pub set_theme : String → Editor → Editor
  pub set_mode : String → Editor → Editor
  pub set_option : (name value : String) → Editor → Editor
  pub get_value : Editor → String
  pub set_value : String → Editor → Editor
  -- `selection.getCursor().row`.
  pub row : Editor → ℕ
  pub goto_line : ℕ → Editor → Editor
  pub destroy : Editor → Editor
  -- `container.remove()`.
  pub remove_container : Editor → Editor
  -- The number of lines of a text.
  pub lines : String → ℕ
  pub get_value-edit : (id text : String) → get_value (edit id text) ≡ text
  pub get_value-set_theme : (t : String) (e : Editor) → get_value (set_theme t e) ≡ get_value e
  pub get_value-set_mode : (m : String) (e : Editor) → get_value (set_mode m e) ≡ get_value e
  pub get_value-set_option :
      (n v : String) (e : Editor) → get_value (set_option n v e) ≡ get_value e
  pub get_value-set_value : (t : String) (e : Editor) → get_value (set_value t e) ≡ t
  pub get_value-goto_line : (n : ℕ) (e : Editor) → get_value (goto_line n e) ≡ get_value e
  pub row-goto_line : (n : ℕ) (e : Editor) → n < lines (get_value e) → row (goto_line (suc n) e) ≡ n

-- The prop `config` and the data `editor`, which is null until the editor is created.
pub record YamlEditor (ace : Ace) (R : Type 0) : Type 0 where
  pub config : Config R
  pub editor : Option ace.Editor

-- `restart` of the component is the one of static/restart.js.
unfoldable pub restart_page : String → List RestartEffect
unfolding restart
restart_page restart_url = restart restart_url

module _ (ace : Ace) {R : Type 0} where
  -- `data` and `created`; `createEditor` follows in the next tick.
  unfoldable pub created : Config R → YamlEditor ace R
  created config = record { config = config; editor = none }

  -- `destroyed`; `none` is the TypeError where no editor has been created.
  unfoldable pub destroyed : YamlEditor ace R → Option ace.Editor
  destroyed y = elim y.editor [ none ↦ none | some e ↦ some (ace.remove_container (ace.destroy e)) ]

  -- js-yaml's `safeDump` and `safeLoad`.
  module _ (safe_dump : Config R → String) (safe_load : String → Loaded R) where
    -- `yaml`.
    unfoldable pub yaml : YamlEditor ace R → String
    yaml y = safe_dump y.config

    -- `createEditor`: the element with the id holds the text `yaml`.
    unfoldable pub create_editor : YamlEditor ace R → YamlEditor ace R
    unfolding yaml
    create_editor y =
        let e = ace.edit "ace_yaml_editor" (yaml y) in
        let e' = ace.set_mode "ace/mode/yaml" (ace.set_theme "ace/theme/github" e) in
        record y { editor = some (ace.set_option "fontSize" "4mm" e') }

    -- The watcher of `config`, and whether it fails with a TypeError, as it does before the editor is
    -- created.
    unfoldable pub on_config : Config R → YamlEditor ace R → YamlEditor ace R × Bool
    unfolding yaml
    on_config new_config y =
        let y' = record y { config = new_config } in
        elim y.editor [
          | none ↦ (y', true)
          | some e ↦ (
            record y' {
              editor = some (ace.goto_line (suc (ace.row e)) (ace.set_value (yaml y') e));
            },
            false,
          )
        ]

    -- `saveContent`; `none` is an exception.
    unfoldable pub save_content :
        Bool → YamlEditor ace R → Option (Option (SaveOptions R) × List (Effect R))
    unfolding yaml_save_content
    save_content restart_after_saving y = elim y.editor [
      | none ↦ none
      | some e ↦ yaml_save_content restart_after_saving (safe_load (ace.get_value e))
    ]
