-- ===== src/Commands/Copies.antt =====
-- The options of the command and those of the application.
use k8s_safed.Base.{◌≡◌, refl}
use k8s_safed.App.{AppOptions}
use k8s_safed.Commands.{DrainOptions, to_app_options, apply_app_options}

-- Copying the options to the application and back loses none: whatever the command's options were,
-- those copied from the application are its own, both ways.
pub apply_app_options-to_app_options :
    (old opts : DrainOptions) (app_opts : AppOptions)
    → (apply_app_options old (to_app_options opts) ≡ opts)
      × (to_app_options (apply_app_options old app_opts) ≡ app_opts)
unfolding to_app_options apply_app_options
apply_app_options-to_app_options old opts app_opts = (refl, refl)
