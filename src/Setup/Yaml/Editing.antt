-- ===== src/Setup/Yaml/Editing.antt =====
-- What the YAML editor shows and saves after the configuration has changed.
use flamenco_manager.Common.{suc, ◌<◌, String, ◌≡◌, refl, Bool, false, some, [], ap, ◌∙◌}
use flamenco_manager.Setup.Config.{
  Config, Page, post_setup_data, yaml_options, Loaded, value, save_config,
}
use flamenco_manager.Setup.Yaml.{Ace, YamlEditor, created, create_editor, on_config, save_content}

module _ (ace : Ace) {R : Type 0} (safe_dump : Config R → String)
    (safe_load : String → Loaded R) where
  save_content-value :
      (b : Bool) (y : YamlEditor ace R) (e : ace.Editor) (c : Config R)
      → y.editor ≡ some e
      → safe_load (ace.get_value e) ≡ value c
      → save_content ace safe_dump safe_load b y ≡ some (some (yaml_options b c), [])
  unfolding save_content
  save_content-value b y e c k l = rw (k, l) refl

  -- An editor that has just been created shows the configuration, and saving it at once hands over that
  -- configuration, if it is read back from the YAML that is written for it.
  pub save_content-create_editor :
      (b : Bool) (c : Config R)
      → safe_load (safe_dump c) ≡ value c
      → save_content ace safe_dump safe_load b
          (create_editor ace safe_dump safe_load (created ace c))
        ≡ some (some (yaml_options b c), [])
  unfolding create_editor created
  save_content-create_editor b c load_dump = save_content-value b _ _ c refl (
      ap safe_load (
        ace.get_value-set_option "fontSize" "4mm" _
        ∙ ace.get_value-set_mode "ace/mode/yaml" _
        ∙ ace.get_value-set_theme "ace/theme/github" _
        ∙ ace.get_value-edit "ace_yaml_editor" (safe_dump c))
      ∙ load_dump)

  -- If the text of the editor reads as a configuration, and this one is read back from the YAML that is
  -- written for it, saving the text sends that configuration; the editor
  -- then shows it anew without an error, with the cursor in the line where it was if the new text has
  -- that line; and saving once more hands over the same configuration.
  pub save_content-on_config :
      (b : Bool) (y : YamlEditor ace R) (e : ace.Editor) (c : Config R) (p : Page R)
      → safe_load (safe_dump c) ≡ value c
      → y.editor ≡ some e
      → safe_load (ace.get_value e) ≡ value c
      → ace.row e < ace.lines (safe_dump c)
      → let sent = save_config (yaml_options b c) p in
        let after = on_config ace safe_dump safe_load sent.0.config y in
        (save_content ace safe_dump safe_load b y ≡ some (some (yaml_options b c), []))
        × (sent.1 ≡ post_setup_data c)
        × (after.1 ≡ false)
        × ((e' : ace.Editor) × (after.0.editor ≡ some e') × (ace.row e' ≡ ace.row e))
        × (save_content ace safe_dump safe_load b after.0 ≡ some (some (yaml_options b c), []))
  unfolding on_config save_config yaml_options
  save_content-on_config b y e c p load_dump k l h =
      let e' = ace.goto_line (suc (ace.row e)) (ace.set_value (safe_dump c) e) in
      let dumped = ace.get_value-set_value (safe_dump c) e in
      let shown : (on_config ace safe_dump safe_load c y).0.editor ≡ some e' =
        rw (k, on_config) refl in
      (
        save_content-value b y e c k l,
        refl,
        rw (k, on_config) refl,
        (e', shown, ace.row-goto_line (ace.row e) _ (rw dumped h)),
        save_content-value b _ e' c shown
            (ap safe_load (ace.get_value-goto_line (suc (ace.row e)) _ ∙ dumped) ∙ load_dump),
      )
