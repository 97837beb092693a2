-- ===== src/Moderation/Kick/Lifecycle.antt =====
-- The callbacks of src/cogs/moderation/wrappers/kick/kick_wrapper.cpp, which Discord calls in any order
-- once the kicks have been asked for.
pub mod Invariant
pub mod Progress
use reactaio.Prelude.{◌≡◌, List, ◌∷◌, ◌++◌, some}
use reactaio.Moderation.World.{Member, World, Session, Completion}
use reactaio.Moderation.Kick.{lambda_callback}

-- The wrapper object, and the members whose kicks have not ended.
pub record Calls : Type 0 where
  pub session : Session
  pub pending : List Member

pub data Step (w : World) (k : Calls) : Calls → Type 0 where
  ends :
      (before : List Member) (m : Member) (after : List Member) (completion : Completion)
      {s : Session}
      → k.pending ≡ before ++ m ∷ after
      → lambda_callback w completion m k.session ≡ some s
      → Step w k (record { session = s; pending = before ++ after })

-- Every member of a session has a kick that has not ended at the start.
pub data Reach (w : World) (s : Session) : Calls → Type 0 where
  start : Reach w s (record { session = s; pending = s.members })
  later : {k l : Calls} → Reach w s k → Step w k l → Reach w s l
