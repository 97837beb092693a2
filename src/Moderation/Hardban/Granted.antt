-- ===== src/Moderation/Hardban/Granted.antt =====
-- When the hard ban command goes on.
use reactaio.Prelude.{
  ℕ, ◌≡◌, refl, true, false, ◌&&◌, List, [], ◌∷◌, ◌++◌, some, null, Bool-cases, inl, inr,
}
use reactaio.Moderation.World.{World, Command, Session}
use reactaio.Moderation.Hardban.{check_permissions, empty_list, not_the_owner}

module _ (w : World) (c : Command) where
  -- An author that is not the owner of the guild is refused whatever the list is: the command is
  -- cancelled, and nothing is asked of Discord, so that the author gets no answer.
  pub check_permissions_not_owner :
      (users : List ℕ) (s : Session)
      → c.author.is_guild_owner ≡ false
      → (s' : Session) × (check_permissions w c users s ≡ some s')
        × (s'.cancel_operation ≡ true)
        × (s'.requests ≡ s.requests)
  unfolding check_permissions
  check_permissions_not_owner users s o = elim (Bool-cases (null s.members && null users)) [
    | inl e ↦ (
      record s { errors = s.errors ++ empty_list ∷ []; cancel_operation = true },
      rw e refl,
      refl,
      refl,
    )
    | inr e ↦ (
      record s { errors = s.errors ++ not_the_owner ∷ []; cancel_operation = true },
      rw (e, o) refl,
      refl,
      refl,
    )
  ]
