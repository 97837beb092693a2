-- ===== src/Moderation/RemoveLockdown.antt =====
-- src/cogs/moderation/wrappers/lockdown/remove_lockdown.cpp, by what it shares with the lockdown.
use reactaio.Prelude.{ℕ, List, Option}
use reactaio.Moderation.World.{World, Command, Channel, Completion, Session, Value}
use reactaio.Moderation.Locks.{Locks}
use reactaio.Moderation.Lockdown
use reactaio.Moderation.Lockdown.{end}

unfoldable pub check_permissions : World → Command → Session → Option Session
check_permissions w c s = Lockdown.check_permissions w c s

unfoldable pub lambda_callback : World → Completion → Channel → Locks → Option Locks
lambda_callback w completion channel l = Lockdown.lambda_callback w completion channel l

unfoldable pub process_lockdown_removal : World → (Option Value → List ℕ) → Locks → Option Locks
process_lockdown_removal w parse_psql_array l = Lockdown.process_lockdown w end parse_psql_array l

unfoldable pub process_response : World → Command → Locks → Option Locks
process_response w c l = Lockdown.process_response w c end l

unfoldable pub wrapper_function : World → Command → (Option Value → List ℕ) → Locks → Option Locks
wrapper_function w c parse_psql_array l = Lockdown.wrapper_function w c end parse_psql_array l
