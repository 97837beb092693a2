-- ===== src/Moderation/Unlock.antt =====
-- src/cogs/moderation/wrappers/(un)lock/unlock_wrapper.cpp, by what it shares with the lock command.
use reactaio.Prelude.{Option}
use reactaio.Moderation.World.{World, Command, Channel, Completion, Session}
use reactaio.Moderation.Locks
use reactaio.Moderation.Locks.{Locks, unlock}

unfoldable pub check_permissions : World → Command → Session → Option Session
check_permissions w c s = Locks.check_permissions w c unlock s

unfoldable pub process_unlocks : World → Locks → Option Locks
process_unlocks w l = Locks.process_locks w unlock l

unfoldable pub lambda_callback : World → Completion → Channel → Locks → Option Locks
lambda_callback w completion channel l = Locks.lambda_callback w unlock completion channel l

unfoldable pub process_response : World → Command → Locks → Option Locks
process_response w c l = Locks.process_response w c unlock l

unfoldable pub wrapper_function : World → Command → Locks → Option Locks
wrapper_function w c l = Locks.wrapper_function w c unlock l
