-- ===== src/Tests/BanLists.antt =====
-- The lists of the bans and of the audit log of a guild at concrete inputs.
use reactaio.FifoMap
use reactaio.FifoMap.{find_key, of_list, index_of}
use reactaio.Moderation.AuditLog
use reactaio.Prelude.Result.{ok, throw, out_of_range}
use reactaio.Moderation.AuditLog.Events.{event_name}
use reactaio.Moderation.AuditLog.Answer.{answers_unfetched}
use reactaio.Moderation.AuditLog.{AuditLog, view_audit_log}
use reactaio.Algorithm.{transform}
use reactaio.UniqueVector.Access.{front}
use reactaio.Moderation.Roles.{top_role, get_permitted_roles}
use reactaio.Moderation.Session.{has_error, log_command_invoke}
use reactaio.Prelude.{
  ◌≡◌, ◌⊎◌, inl, inr, refl, true, List, [], ◌∷◌, Option, some, arith, All, Bool-cases, ltb,
  if◌then◌else◌, ℕ, codes,
}
use reactaio.UniqueVector.{contains, insert}
use reactaio.Moderation.World.{guild_get_bans, command_insert, paginate}
use reactaio.Moderation.GuildBans.{
  Ban, GuildBans, Fetch, got, view_ban_list, recursive_call, wrapper_function,
}
use reactaio.Moderation.GuildBans.Pages.{Serves, Found, recursive_call_ends, Known}
use reactaio.Moderation.GuildBans.Answer.{answers_blank}
use reactaio.Tests.Guild.{guild, command, session}

abbrev ban : Ban
ban = record { address = 60; user_id = 106; reason = codes "spam" }

abbrev begun : GuildBans
begun = record { base = record session { members = [] }; bans = []; banned_usernames = [] }

-- The guild has one ban.
abbrev fetch : ℕ → Fetch
fetch after = if ltb after 106 then got (ban ∷ []) else got []

abbrev behind : List Ban → Option Ban
behind bans = some (record ban { address = 995 })

serves :
    (after : ℕ) → (page : List Ban) × (fetch after ≡ got page) × Serves behind (ban ∷ []) after page
unfolding contains
serves after = elim (Bool-cases (ltb after 106)) [
  | inl e ↦ (
    ban ∷ [],
    rw e refl,
    record {
      quiet = (λ xs. (record ban { address = 995 }, refl, ground arith), tt);
      sound = ((ground (arith, e), refl), tt);
      complete = (inr (inl refl), tt);
    },
  )
  | inr e ↦
      ([], rw e refl, record { quiet = tt; sound = tt; complete = (inl (ground (arith, e)), tt) })
]

recursive_call_ends_example :
    (g' : GuildBans) × (recursive_call behind fetch 2 1 begun ≡ some g')
    × All (Found behind fetch (ban ∷ []) 1 g') (ban ∷ [])
    × All (Known behind fetch (ban ∷ [])) g'.bans
    × (g'.base ≡ begun.base)
recursive_call_ends_example =
    recursive_call_ends behind fetch (ban ∷ []) serves 2 1 begun (ground arith) refl

shown : (g' : GuildBans) × (wrapper_function guild command begun ≡ some g')
unfolding wrapper_function top_role insert front get_permitted_roles transform has_error
    log_command_invoke
shown = (_, refl)

answers_blank_example :
    (shown.0.base.cancel_operation ≡ true)
    ⊎ (shown.0.base.requests
        ≡ guild_get_bans 1 ∷ command_insert view_ban_list ∷ paginate true [] ∷ [])
answers_blank_example =
    answers_blank guild command begun shown.0 (unfold has_error in refl) refl refl refl shown.1

abbrev audit : AuditLog
audit = record { base = record session { members = [] }; audit_entries = [] }

audit_shown : (g' : AuditLog) × (AuditLog.wrapper_function guild command audit ≡ some g')
unfolding AuditLog.wrapper_function top_role insert front get_permitted_roles transform has_error
    log_command_invoke
audit_shown = (_, refl)

answers_unfetched_example :
    ((audit_shown.0.base.cancel_operation ≡ true) × (audit_shown.0.base.requests ≡ []))
    ⊎ (audit_shown.0.base.requests ≡ command_insert view_audit_log ∷ paginate true [] ∷ [])
answers_unfetched_example =
    answers_unfetched guild command audit audit_shown.0 (unfold has_error in refl) refl refl
      audit_shown.1

-- The names of kinds are found, but for a sticker that has been deleted.
kicked_name : event_name (codes "aut_member_kick") ≡ ok (codes "member_kick")
unfolding event_name find_key of_list FifoMap.insert index_of FifoMap.empty
kicked_name = refl

deleted_sticker_name : event_name (codes "aut_sticker_delete") ≡ throw out_of_range
unfolding event_name find_key of_list FifoMap.insert index_of FifoMap.empty
deleted_sticker_name = refl
