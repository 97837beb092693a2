-- ===== src/Moderation/Kick/Lifecycle/Progress.antt =====
-- That the callbacks of src/cogs/moderation/wrappers/kick/kick_wrapper.cpp return.
use reactaio.Moderation.World.{World, Session}
