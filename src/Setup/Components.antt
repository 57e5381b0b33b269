-- ===== src/Setup/Components.antt =====
-- static/websetup/websetup.js: the components that the script registers with Vue, and the tags that use
-- them in static/websetup/vue-components.html and templates/websetup/index.html.
pub mod Conformance
use flamenco_manager.Common.{String, Option, none, some, List, [], ◌∷◌}
use flamenco_manager.Common.Component.{Component, Use, string, boolean, array, object, prop}

abbrev pub setup_form : Component
setup_form = record {
  name = "setup-form";
  template = "#template_setup_form";
  props =
      prop "own_urls" array
      ∷ prop "config" object
      ∷ prop "original_config" object
      ∷ prop "mongo_choice" string
      ∷ prop "hide_infra_settings" boolean
      ∷ [];
  data_names = [];
  computed = "saveButtonDisabled" ∷ [];
  methods = "saveContent" ∷ [];
  watch = [];
  hooks = [];
  emits = "configupdated" ∷ "mongo_choice" ∷ [];
}

abbrev pub yaml_editor : Component
yaml_editor = record {
  name = "yaml-editor";
  template = "#template_yaml_editor";
  props = prop "config" object ∷ prop "original_config" object ∷ [];
  data_names = "editor" ∷ [];
  computed = "yaml" ∷ [];
  methods = "createEditor" ∷ "saveContent" ∷ "restart" ∷ [];
  watch = "config" ∷ [];
  hooks = "created" ∷ "destroyed" ∷ [];
  emits = "configupdated" ∷ "reloadconfig" ∷ [];
}

abbrev pub input_field : Component
input_field = record {
  name = "input-field";
  template = "#template_input_field";
  props =
      prop "id_input" string
      ∷ prop "placeholder" string
      ∷ prop "label" string
      ∷ prop "help" string
      ∷ prop "value" string
      ∷ prop "original_value" string
      ∷ [];
  data_names = [];
  computed = "restore_title" ∷ [];
  methods = [];
  watch = [];
  hooks = [];
  emits = "input" ∷ [];
}

abbrev pub checkbox_field : Component
checkbox_field = record {
  name = "checkbox-field";
  template = "#template_checkbox_field";
  props =
      prop "id_input" string
      ∷ prop "label" string
      ∷ prop "label2" string
      ∷ prop "help" string
      ∷ prop "value" boolean
      ∷ prop "original_value" boolean
      ∷ [];
  data_names = [];
  computed = "restore_title" ∷ [];
  methods = [];
  watch = [];
  hooks = [];
  emits = "input" ∷ [];
}

abbrev pub variables_editor : Component
variables_editor = record {
  name = "variables-editor";
  template = "#template_variables_editor";
  props = prop "variables" object ∷ [];
  data_names = [];
  computed = [];
  methods = "removeVariable" ∷ [];
  watch = [];
  hooks = [];
  emits = [];
}

abbrev pub variable_editor : Component
variable_editor = record {
  name = "variable-editor";
  template = "#template_variable_editor";
  props = prop "varName" string ∷ prop "varDef" object ∷ [];
  data_names = "allAudience" ∷ [];
  computed =
      "showAudienceRow" ∷ "disableAddValueButton" ∷ "isPredefined" ∷ "showRemoveButton"
      ∷ "niceVariableName" ∷ "variableDescription" ∷ "propsForNewValue" ∷ [];
  methods = "remove" ∷ "removeValue" ∷ "addValue" ∷ "cleanupAudiences" ∷ [];
  watch = [];
  hooks = "created" ∷ [];
  emits = "removeVariable" ∷ [];
}

abbrev pub two_way_toggle : Component
two_way_toggle = record {
  name = "two-way-toggle";
  template = "#template_two_way_toggle";
  props =
      prop "name" string
      ∷ prop "labelLeft" string
      ∷ prop "labelRight" string
      ∷ prop "valueLeft" string
      ∷ prop "valueRight" string
      ∷ prop "value" string
      ∷ [];
  data_names = [];
  computed = "toggleID" ∷ "isChecked" ∷ [];
  methods = "onInput" ∷ [];
  watch = [];
  hooks = [];
  emits = "input" ∷ [];
}

-- `vueApp`, which is mounted on the page.
abbrev pub vue_app : Component
vue_app = record {
  name = "";
  template = "#vueApp";
  props = [];
  data_names = "own_urls" ∷ "config" ∷ "original_config" ∷ "mongo_choice" ∷ "vueAppMode" ∷ [];
  computed = "appModeButtonText" ∷ [];
  methods =
      "switchAppMode" ∷ "loadSetupData" ∷ "setConfig" ∷ "markConfigAsOriginal" ∷ "saveConfig" ∷ [];
  watch = [];
  hooks = "created" ∷ [];
  emits = [];
}

abbrev pub components : List Component
components =
    setup_form ∷ yaml_editor ∷ input_field ∷ checkbox_field ∷ variables_editor ∷ variable_editor
    ∷ two_way_toggle ∷ vue_app ∷ []

abbrev input_use : Use
input_use = record {
  inside = "setup-form";
  component = "input-field";
  passed = "id_input" ∷ "value" ∷ "original_value" ∷ "placeholder" ∷ "label" ∷ "help" ∷ [];
  listened = "input" ∷ [];
}

abbrev toggle_use : Use
toggle_use = record {
  inside = "variable-editor";
  component = "two-way-toggle";
  passed = "name" ∷ "labelLeft" ∷ "labelRight" ∷ "valueLeft" ∷ "valueRight" ∷ "value" ∷ [];
  listened = "input" ∷ [];
}

-- The tags of the page and of its templates. The nine tags `input-field` have the same attributes, as do
-- the two `checkbox-field` and the two `two-way-toggle`.
abbrev pub uses : List Use
uses =
    record {
      inside = "";
      component = "setup-form";
      passed =
          "own_urls" ∷ "config" ∷ "original_config" ∷ "mongo_choice" ∷ "hide_infra_settings" ∷ [];
      listened = "mongo_choice" ∷ "configupdated" ∷ [];
    }
    ∷ record {
      inside = "";
      component = "yaml-editor";
      passed = "config" ∷ "original_config" ∷ [];
      listened = "configupdated" ∷ "reloadconfig" ∷ [];
    }
    ∷ input_use
    ∷ record {
      inside = "setup-form";
      component = "checkbox-field";
      passed = "id_input" ∷ "value" ∷ "original_value" ∷ "label" ∷ "label2" ∷ "help" ∷ [];
      listened = "input" ∷ [];
    }
    ∷ record {
      inside = "setup-form";
      component = "variables-editor";
      passed = "variables" ∷ [];
      listened = [];
    }
    ∷ record {
      inside = "variables-editor";
      component = "variable-editor";
      passed = "varName" ∷ "varDef" ∷ [];
      listened = "removeVariable" ∷ [];
    }
    ∷ toggle_use
    ∷ []
