-- ===== src/Moderation/AuditLog/Events.antt =====
-- src/cogs/moderation/audit_log_actions.h: the names of the kinds of audit log entries. A kind is
-- written as the name of its constant in D++.
use mathlib.Core.Path.{subst}
use reactaio.Prelude.{◌≡◌, refl, true, List, [], ◌∷◌, Text, codes, arith, ap, ◌∙◌}
use reactaio.Prelude.Eq.{Eq}
use reactaio.Prelude.Result.{Result}
use reactaio.Strings.{text_eq}
use reactaio.FifoMap.{FifoMap, empty, of_list, find_key}

unfoldable pub events : List (Text × Text)
events =
    (codes "guild_update", codes "aut_guild_update")
    ∷ (codes "channel_create", codes "aut_channel_create")
    ∷ (codes "channel_update", codes "aut_channel_update")
    ∷ (codes "channel_delete", codes "aut_channel_delete")
    ∷ (codes "channel_overwrite_create", codes "aut_channel_overwrite_create")
    ∷ (codes "channel_overwrite_update", codes "aut_channel_overwrite_update")
    ∷ (codes "member_kick", codes "aut_member_kick")
    ∷ (codes "member_prune", codes "aut_member_prune")
    ∷ (codes "member_ban_add", codes "aut_member_ban_add")
    ∷ (codes "member_ban_remove", codes "aut_member_ban_remove")
    ∷ (codes "member_update", codes "aut_member_update")
    ∷ (codes "member_role_update", codes "aut_member_role_update")
    ∷ (codes "member_move", codes "aut_member_move")
    ∷ (codes "member_disconnect", codes "aut_member_disconnect")
    ∷ (codes "bot_add", codes "aut_bot_add")
    ∷ (codes "role_create", codes "aut_role_create")
    ∷ (codes "role_update", codes "aut_role_update")
    ∷ (codes "role_delete", codes "aut_role_delete")
    ∷ (codes "invite_create", codes "aut_invite_create")
    ∷ (codes "invite_update", codes "aut_invite_update")
    ∷ (codes "invite_delete", codes "aut_invite_delete")
    ∷ (codes "webhook_create", codes "aut_webhook_create")
    ∷ (codes "webhook_update", codes "aut_webhook_update")
    ∷ (codes "webhook_delete", codes "aut_webhook_delete")
    ∷ (codes "emoji_create", codes "aut_emoji_create")
    ∷ (codes "emoji_update", codes "aut_emoji_update")
    ∷ (codes "emoji_delete", codes "aut_emoji_delete")
    ∷ (codes "message_delete", codes "aut_message_delete")
    ∷ (codes "message_bulk_delete", codes "aut_message_bulk_delete")
    ∷ (codes "message_pin", codes "aut_message_pin")
    ∷ (codes "message_unpin", codes "aut_message_unpin")
    ∷ (codes "integration_create", codes "aut_integration_create")
    ∷ (codes "integration_update", codes "aut_integration_update")
    ∷ (codes "integration_delete", codes "aut_integration_delete")
    ∷ (codes "stage_instance_create", codes "aut_stage_instance_create")
    ∷ (codes "stage_instance_update", codes "aut_stage_instance_update")
    ∷ (codes "stage_instance_delete", codes "aut_stage_instance_delete")
    ∷ (codes "sticker_create", codes "aut_sticker_create")
    ∷ (codes "sticker_update", codes "aut_sticker_update")
    ∷ (codes "sticker_delete", codes "aut_sticker_update")
    ∷ (codes "guild_scheduled_event_create", codes "aut_guild_scheduled_event_create")
    ∷ (codes "guild_scheduled_event_update", codes "aut_guild_scheduled_event_update")
    ∷ (codes "guild_scheduled_event_delete", codes "aut_guild_scheduled_event_delete")
    ∷ (codes "thread_create", codes "aut_thread_create")
    ∷ (codes "thread_update", codes "aut_thread_update")
    ∷ (codes "thread_delete", codes "aut_thread_delete")
    ∷ (codes "appcommand_permission_update", codes "aut_appcommand_permission_update")
    ∷ (codes "automod_rule_create", codes "aut_automod_rule_create")
    ∷ (codes "automod_rule_update", codes "aut_automod_rule_update")
    ∷ (codes "automod_rule_delete", codes "aut_automod_rule_delete")
    ∷ (codes "automod_block_message", codes "aut_automod_block_message")
    ∷ (codes "automod_user_communication_disabled", codes "aut_automod_user_communication_disabled")
    ∷ (
      codes "creator_monetization_request_created",
      codes "aut_creator_monetization_request_created",
    )
    ∷ (codes "creator_monetization_terms_accepted", codes "aut_creator_monetization_terms_accepted")
    ∷ []

-- `std::string` and the constants are compared by their characters.
pub text_eq-to : (s t : Text) → text_eq s t ≡ true → s ≡ t
text_eq-to [] [] e = refl
text_eq-to [] (d ∷ t) e = absurd (ground (arith, e))
text_eq-to (c ∷ s) [] e = absurd (ground (arith, e))
text_eq-to (c ∷ s) (d ∷ t) e =
    ap (λ x. x ∷ s) (ground (arith, e)) ∙ ap (λ x. d ∷ x) (text_eq-to s t (ground (arith, e)))

pub text_eq_refl : (s : Text) → text_eq s s ≡ true
text_eq_refl [] = refl
text_eq_refl (c ∷ s) = ground (arith, text_eq_refl s)

instance abbrev pub text_equality : Eq Text
text_equality = record {
  beq = text_eq;
  beq_iff = λ s t. (text_eq-to s t, λ e. subst (λ x. text_eq s x ≡ true) e (text_eq_refl s));
}

unfoldable pub audit_log_events : FifoMap Text Text
unfolding events
audit_log_events = of_list events empty

-- `audit_log_events.find_key(type)`
unfoldable pub event_name : Text → Result Text
unfolding audit_log_events
event_name type = find_key type audit_log_events
