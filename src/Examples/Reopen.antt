-- ===== src/Examples/Reopen.antt =====
-- A setup page at concrete inputs that is opened again on what it has saved.
use flamenco_manager.Common.{
  ℕ, String, ◌≡◌, refl, true, false, Option, none, some, [], ◌∷◌, inl, inr,
}
use flamenco_manager.Common.StringSet.{has, IsDistinct}
use flamenco_manager.Setup.Variables.{VarValue, every_for_all}
use flamenco_manager.Setup.Config.{
  Variable, Page, form, form_options, post_setup_data, save_config, save_button_disabled,
}
use flamenco_manager.Setup.Reopen.{opened, names, IsSettled}
use flamenco_manager.Setup.Reopen.Stable.{save_config-opened}

abbrev value : String → Option String → VarValue
value v audience = record {
  value = v;
  audience = audience;
  platform = some "linux";
  platforms = [];
}

abbrev ffmpeg : Variable
ffmpeg = record {
  direction = "oneway";
  values = value "/usr/bin/ffmpeg" (some "users") ∷ value "ffmpeg" none ∷ [];
}

abbrev storage : Variable
storage = record {
  direction = "twoway";
  values = value "/home" (some "users") ∷ value "/render" (some "workers") ∷ [];
}

-- "ffmpeg" is now the same for all audiences, which it was not in an editor that is no longer shown; "storage"
-- keeps them apart.
abbrev page : Page ℕ
page = record {
  own_urls = [];
  config = record {
    database_url = "";
    variables = ("ffmpeg", ffmpeg) ∷ ("storage", storage) ∷ [];
    rest = 3;
  };
  original_config = record { database_url = ""; variables = []; rest = 3 };
  mongo_choice = "bundled";
  mode = form;
  editors = ("storage", "separate") ∷ ("ffmpeg", "all") ∷ ("ffmpeg", "separate") ∷ [];
}

abbrev blank : Page ℕ
blank = record {
  own_urls = [];
  config = record { database_url = ""; variables = []; rest = 0 };
  original_config = record { database_url = ""; variables = []; rest = 0 };
  mongo_choice = "builtin";
  mode = form;
  editors = [];
}

page-IsDistinct : IsDistinct (names page.config.variables)
unfolding has
page-IsDistinct = (refl, (refl, tt))

page-IsSettled : IsSettled page.editors page.config.variables
unfolding every_for_all
page-IsSettled = (inl refl, (inr (refl, refl), tt))

save_config-opened_example :
    let sent = (save_config (form_options true page) page).0.config in
    let r = opened ("http://manager/" ∷ []) sent blank in
    ((save_config (form_options false r) r).1 ≡ post_setup_data sent)
    × (save_button_disabled (λ c. c.database_url) r ≡ true)
save_config-opened_example =
    save_config-opened (λ c. c.database_url) true false ("http://manager/" ∷ []) page blank
      page-IsDistinct page-IsSettled
