-- ===== src/Cli/Screens/Shown.antt =====
-- What the screens of a session that starts without a chain file say of its chain (main.c).
use transaction_models_minin.Common.Text.{Text}
use transaction_models_minin.Env.{Env}
