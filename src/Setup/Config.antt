-- ===== src/Setup/Config.antt =====
-- static/websetup/websetup.js: `vueApp` of the setup page with the form and the YAML editor, which
-- change, save and reload the configuration.
pub mod Saving
use flamenco_manager.Common.{
  String, Bool, true, false, Option, none, some, List, [], ◌∷◌, if◌then◌else◌, ◌==◌,
}
use flamenco_manager.Common.Http.{HttpError}
use flamenco_manager.Auth.Ajax.{Stage, jwt, request}
use flamenco_manager.Setup.Variables.{VarValue, Editor, cleanup_audiences}

-- A variable of the configuration.
pub record Variable : Type 0 where
  pub direction : String
  pub values : List VarValue

-- The configuration: what the page reads of it, and the rest.
pub record Config (R : Type 0) : Type 0 where
  pub database_url : String
  pub variables : List (String × Variable)
  pub rest : R

pub data Mode : Type 0 where
  form yaml : Mode

-- `eventBus`: the variable editors that listen to `pre-save-config`, with the name of its variable and the
-- `allAudience` of each. An editor that is no longer shown still listens; those are left out that hold
-- the object of a variable that has been deleted or of a configuration that the page has let go.
abbrev pub EventBus : Type 0
EventBus = List (String × String)

-- `eventBus.$on('pre-save-config', …)` in `created` of an editor.
unfoldable pub listen : Editor → EventBus → EventBus
listen e bus = (e.var_name, e.all_audience) ∷ bus

-- The data of `vueApp`, and as `editors` the event bus.
pub record Page (R : Type 0) : Type 0 where
  pub own_urls : List String
  pub config : Config R
  pub original_config : Config R
  pub mongo_choice : String
  pub mode : Mode
  pub editors : EventBus

pub data Effect (R : Type 0) : Type 0 where
  get_setup_data : Effect R
  post_setup_data : Config R → Effect R
  restart : (url : String) → Effect R
  toast_success : (message title : String) → Effect R
  toast_error : (message title : String) → Effect R
  show_link_button : Effect R
  goto_line : String → Effect R
  log_unknown_restart : String → Effect R

-- What `configupdated` hands over; `is_own` says that it is the page's own object, not a copy.
pub record SaveOptions (R : Type 0) : Type 0 where
  pub config : Config R
  pub is_own : Bool
  pub restart_after_saving : Bool
  pub restart_to : Option String

-- `switchAppMode`, and the text of its button.
unfoldable pub switch_mode : Mode → Mode
switch_mode form = yaml
switch_mode yaml = form

unfoldable pub app_mode_button_text : Mode → String
app_mode_button_text form = "Advanced"
app_mode_button_text yaml = "Simple"

-- `cleanupAudiences` of an editor of a variable.
unfoldable pub clean_variable : String → String → Variable → Variable
clean_variable all_audience name v = record v {
  values =
      (cleanup_audiences (record {
        var_name = name;
        direction = v.direction;
        values = v.values;
        all_audience = all_audience;
      })).values;
}

-- All listeners of a variable, the one that has listened longest first: each changes the same object.
unfoldable pub heard : EventBus → String → Variable → Variable
unfolding clean_variable
heard [] name v = v
heard ((k, all_audience) ∷ bus) name v =
    let before = heard bus name v in
    if k == name then clean_variable all_audience name before else before

unfoldable pub clean_variables :
    List (String × String) → List (String × Variable) → List (String × Variable)
unfolding heard
clean_variables editors [] = []
clean_variables editors ((name, v) ∷ vs) = (name, heard editors name v) ∷ clean_variables editors vs

-- The error texts of `loadSetupData` and `saveConfig`.
unfoldable pub error_message : HttpError → String
error_message error = elim error.response_text [
  | none ↦ "Unable to connect to server."
  | some t ↦ if t == "" then "Unable to connect to server." else t
]

unfoldable pub error_title : String → Option Stage → String
error_title other none = other
error_title other (some jwt) = "Unable to obtain authorization token"
error_title other (some request) = other

module _ {R : Type 0} where
  -- `setConfig`.
  unfoldable pub set_config : Config R → Page R → Page R
  set_config config p = record p {
    config = config;
    mongo_choice = if config.database_url == "" then "bundled" else "external";
  }

  -- `markConfigAsOriginal`.
  unfoldable pub mark_config_as_original : Page R → Page R
  mark_config_as_original p = record p { original_config = p.config }

  -- The event `pre-save-config`: the editors change the page's configuration in place.
  unfoldable pub clean_config : Page R → Config R → Config R
  unfolding clean_variables
  clean_config p c = record c { variables = clean_variables p.editors c.variables }

  -- `saveConfig` up to the request.
  unfoldable pub save_config : SaveOptions R → Page R → Page R × Effect R
  unfolding set_config clean_config
  save_config options p =
      let to_save = if options.is_own then clean_config p options.config else options.config in
      (record (set_config options.config p) { config = to_save }, post_setup_data to_save)

  -- `saveContent` of the form.
  unfoldable pub form_options : Bool → Page R → SaveOptions R
  form_options restart_after_saving p = record {
    config = p.config;
    is_own = true;
    restart_after_saving = restart_after_saving;
    restart_to = some "setup";
  }

  -- `saveContent` of the YAML editor, where the text has been read without an exception.
  unfoldable pub yaml_options : Bool → Config R → SaveOptions R
  yaml_options restart_after_saving config = record {
    config = config;
    is_own = false;
    restart_after_saving = restart_after_saving;
    restart_to = some "normal";
  }

  -- The restart that is asked for after saving.
  unfoldable pub restart_for : Option String → List (Effect R)
  restart_for none = restart "/setup/restart-to-setup" ∷ []
  restart_for (some to) =
      if to == "setup"
      then restart "/setup/restart-to-setup" ∷ []
      else if to == "normal"
      then restart "/setup/restart" ∷ []
      else log_unknown_restart to ∷ []

  -- The `.then` of `saveConfig`.
  unfoldable pub config_saved : SaveOptions R → Page R → Page R × List (Effect R)
  unfolding mark_config_as_original restart_for
  config_saved options p = (
    mark_config_as_original p,
    if options.restart_after_saving
        then restart_for options.restart_to
        else toast_success "Restart Flamenco Manager to apply the new settings."
            "Configuration saved"
          ∷ [],
  )

  -- The `.catch` of `saveConfig`.
  unfoldable pub config_not_saved : HttpError → Option Stage → Page R → Page R × List (Effect R)
  unfolding error_message error_title
  config_not_saved error stage p =
      (p, toast_error (error_message error) (error_title "Unable to save settings" stage) ∷ [])

  -- The `.then` of `loadSetupData`, at the settings that were read.
  unfoldable pub setup_data_loaded : List String → Config R → Page R → Page R
  unfolding set_config mark_config_as_original
  setup_data_loaded own_urls config p =
      mark_config_as_original (set_config config (record p { own_urls = own_urls }))

  -- The `.catch` of `loadSetupData`.
  unfoldable pub setup_data_not_loaded :
      HttpError → Option Stage → Page R → Page R × List (Effect R)
  unfolding error_message error_title
  setup_data_not_loaded error stage p = (
    p,
    toast_error (error_message error) (error_title "Unable to load settings" stage)
        ∷ show_link_button
        ∷ [],
  )

  -- `saveButtonDisabled` of the form, with JavaScript's `JSON.stringify`.
  unfoldable pub save_button_disabled : (Config R → String) → Page R → Bool
  save_button_disabled stringify p = stringify p.config == stringify p.original_config

-- What `jsyaml.safeLoad` does with a text: a value, a YAMLException with its reason and line, or another
-- exception, which is thrown on.
pub data Loaded (R : Type 0) : Type 0 where
  value : Config R → Loaded R
  yaml_exception : (reason line : String) → Loaded R
  other_exception : Loaded R

-- `saveContent` of the YAML editor: what it emits and what it asks for; `none` is the exception.
unfoldable pub yaml_save_content :
    {R : Type 0} → Bool → Loaded R → Option (Option (SaveOptions R) × List (Effect R))
unfolding yaml_options
yaml_save_content b (value config) = some (some (yaml_options b config), [])
yaml_save_content b (yaml_exception reason line) =
    some (none, toast_error reason "Error parsing YAML:" ∷ goto_line line ∷ [])
yaml_save_content b other_exception = none
