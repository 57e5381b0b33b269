-- ===== src/Setup/Config/Saving.antt =====
-- What is saved, and what the page takes as saved.
use flamenco_manager.Common.{String, ◌≡◌, ◌≢◌, refl, true, Option, eq_refl}
use flamenco_manager.Common.Http.{HttpError}
use flamenco_manager.Auth.Ajax.{Stage}
use flamenco_manager.Setup.Config.{
  Config, Page, post_setup_data, SaveOptions, save_config, config_saved, config_not_saved,
  save_button_disabled,
}

module _ {R : Type 0} (stringify : Config R → String) where
  -- Whether the form or the YAML editor saves: if nothing is changed until the answer, the configuration
  -- that was sent becomes the saved one and the save button is disabled; if the request fails, the
  -- saved configuration stays what it was and the page keeps what it tried to save.
  pub config_saved-save_config :
      (options : SaveOptions R) (p : Page R) (error : HttpError) (stage : Option Stage)
      → let sent = save_config options p in
        (sent.1 ≡ post_setup_data (config_saved options sent.0).0.original_config)
        × (save_button_disabled stringify (config_saved options sent.0).0 ≡ true)
        × ((config_not_saved error stage sent.0).0.original_config ≡ p.original_config)
        × (sent.1 ≡ post_setup_data (config_not_saved error stage sent.0).0.config)
  unfolding save_config config_saved config_not_saved save_button_disabled
  config_saved-save_config options p error stage = (refl, eq_refl _, refl, refl)

  -- A change while the request is out is lost to the page: whatever the user has changed the
  -- configuration to when the answer comes, that one is taken as saved and the save button is
  -- disabled, though the request had another one.
  pub config_saved_edited :
      (options : SaveOptions R) (p : Page R) (edited : Config R)
      → post_setup_data edited ≢ (save_config options p).1
      → let after =
          (config_saved options (record ((save_config options p).0) { config = edited })).0 in
        ((save_config options p).1 ≢ post_setup_data after.original_config)
        × (after.config ≡ edited)
        × (save_button_disabled stringify after ≡ true)
  unfolding config_saved save_button_disabled
  config_saved_edited options p edited n = (λ e. n (cc), refl, eq_refl _)
