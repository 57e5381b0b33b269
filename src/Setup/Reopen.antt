-- ===== src/Setup/Reopen.antt =====
-- static/websetup/websetup.js: the setup page that is opened again on what it has saved. The form shows
-- an editor for each variable, and each editor listens to `pre-save-config` from its creation on.
pub mod Stable
use flamenco_manager.Common.{
  String, ◌≡◌, ◌⊎◌, true, false, Bool, not, ◌&&◌, ◌||◌, ◌==◌, List, [], ◌∷◌,
}
use flamenco_manager.Setup.Variables.{every_for_all, created}
use flamenco_manager.Setup.Config.{Variable, Config, EventBus, listen, Page, setup_data_loaded}

-- The editors of the variables are created in the order of the form.
unfoldable pub open_editors : List (String × Variable) → EventBus → EventBus
unfolding listen created
open_editors [] bus = bus
open_editors ((name, v) ∷ vs) bus = open_editors vs (listen (created name v.direction v.values) bus)

-- The page has been opened anew, where nothing listens yet; it loads the settings, and the form shows them.
unfoldable pub opened : {R : Type 0} → List String → Config R → Page R → Page R
unfolding setup_data_loaded open_editors
opened own_urls config p = record (setup_data_loaded own_urls config p) {
  editors = open_editors config.variables [];
}

abbrev pub names : List (String × Variable) → List String
names [] = []
names ((name, v) ∷ vs) = name ∷ names vs

-- An editor of the variable gives all audiences the same values.
abbrev pub joins : String → EventBus → Bool
joins name [] = false
joins name ((k, a) ∷ bus) = (k == name && not (a == "separate")) || joins name bus

-- Of each variable an editor gives all audiences the same values, or else it has a value that is not for all.
abbrev pub IsSettled : EventBus → List (String × Variable) → Type 0
IsSettled bus [] = Unit
IsSettled bus ((name, v) ∷ vs) =
    ((joins name bus ≡ true) ⊎ ((joins name bus ≡ false) × (every_for_all v.values ≡ false)))
    × IsSettled bus vs
