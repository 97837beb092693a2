-- ===== src/Moderation/World.antt =====
-- What the moderation commands of src/cogs/moderation/wrappers read: the cache of the D++ library,
-- the rows of the database and the command itself. A pointer is its address, and 0 is null.
use reactaio.Prelude.{ℕ, Bool, List, Option, Text}
use reactaio.Duration.{Duration}

pub record Role : Type 0 where
  pub position : ℕ
  pub mention : Text
  pub has_kick_members : Bool
  pub has_ban_members : Bool
  pub has_moderate_members : Bool
  pub has_manage_roles : Bool
  pub has_manage_guild : Bool
  pub has_view_audit_log : Bool

-- `dpp::guild_member` behind a shared pointer, with what it and its user answer.
pub record Member : Type 0 where
  pub address : ℕ
  pub user_id : ℕ
  pub is_guild_owner : Bool
  pub is_bot : Bool
  pub mention : Text
  pub username : Text
  pub roles : List ℕ

-- `dpp::user` behind a shared pointer.
pub record User : Type 0 where
  pub address : ℕ
  pub id : ℕ
  pub mention : Text
  pub username : Text

-- `member_user_variant`: a member, a user, or nothing.
pub data Target : Type 0 where
  member_target : Member → Target
  user_target : User → Target
  valueless : Target

abbrev pub user_key : User → ℕ
user_key u = u.address

abbrev pub member_key : Member → ℕ
member_key m = m.address

pub record Channel : Type 0 where
  pub address : ℕ
  pub id : ℕ
  pub mention : Text

abbrev pub channel_key : Channel → ℕ
channel_key a = a.address

-- A role pointer is compared by itself.
abbrev pub role_key : ℕ → ℕ
role_key a = a

-- A field of a row of the database; a null is left out of the row.
pub data Value : Type 0 where
  number : ℕ → Value
  text : Text → Value

abbrev pub Row : Type 0
Row = Text → Option Value

pub record World : Type 0 where
  -- The object at an address; none at null.
  pub role_at : ℕ → Option Role
  -- `dpp::find_role`: the address of the cached role.
  pub find_role : ℕ → ℕ
  -- `std::make_shared<dpp::role>(*find_role(id))`: the address of a copy.
  pub copy_role : ℕ → ℕ
  -- What a read behind the last element of a vector gives; none if it faults.
  pub past_roles : List ℕ → Option ℕ
  pub past_members : List Member → Option Member
  pub past_users : List User → Option User
  pub past_ids : List ℕ → Option ℕ
  pub past_channels : List Channel → Option Channel
  -- `find_channel(command.channel_id)`
  pub current_channel : Channel
  -- `get_user()`: the cached user of a member.
  pub user_of : Member → User
  -- `std::make_shared<dpp::user>(*user)`
  pub copy_user : User → User
  -- `find_guild_member(command.guild->id, command.bot->me.id)`
  pub bot_member : Member
  pub bot_id : ℕ
  -- The rows of "protected_roles": no row, or one that is a null or an array of role ids.
  pub protected_roles : Option (Option (List ℕ))
  -- The rows of "get_mod_perm_roles" for a command.
  pub permitted_roles : Text → List ℕ
  -- The webhooks that the guild has set for its logs, by the name of the column; null is none.
  pub webhooks : Text → Option Text
  -- Whether the guild has no row of webhooks, at which a query for one row throws.
  pub lacks_webhooks : Bool
  -- The rows of "get_ban_remove_days": no row, or one whose number may be null.
  pub ban_remove_days : Option (Option ℕ)
  -- The rows of "get_ban_id": no row, or the one with the highest id of a temporary ban of the guild,
  -- which may be null.
  pub ban_id : Option (Option ℕ)
  -- Whether the database refuses a second transaction on a connection while one is live.
  pub refuses_nested : Bool
  -- Whether the database takes a statement of a transaction that has been committed.
  pub executes_after_commit : Bool
  -- The time so many seconds from now, as Discord shows it.
  pub relative_time : ℕ → Text
  -- The row of "check_timeout"; null is none.
  pub use_timeout : Option Bool
  -- The id of the role for muted members; null is none.
  pub mute_role : Option ℕ
  -- The rows of "get_timeout_id": no row, or one whose id may be null.
  pub timeout_id : Option (Option ℕ)
  -- The time so many seconds from now, as a number.
  pub time_after : ℕ → ℕ
  -- The rows of "casecount": no row, or the one with the highest case id of the guild, which may be
  -- null.
  pub case_id : Option (Option ℕ)
  -- The rows that a statement gives for its parameters.
  pub rows : Text → List Text → List Row
  pub guild_id : ℕ
  -- `find_guild_member(guild, user)`, which throws where the cache has no such member.
  pub find_guild_member : ℕ → ℕ → Option Member
  -- `dpp::find_user` and `find_channel`; none is null.
  pub find_user : ℕ → Option User
  pub find_channel : ℕ → Option Channel
  -- `std::make_shared<dpp::channel>(*channel)`
  pub copy_channel : Channel → Channel
  -- `non_bot_members(command.guild)`, printed.
  pub member_count : Text

-- The command: its author, the guild and the reason. An automatic one has no interaction.
pub record Command : Type 0 where
  pub author : Member
  pub interaction : Bool
  pub guild_name : Text
  pub reason : Text
  pub duration : Text
  pub delete_message_days : ℕ

pub record Embed : Type 0 where
  pub title : Text
  pub description : Text
  pub image : Text
  pub footer : Text
  pub fields : List (Text × Text)

-- What is asked of Discord and of the database.
pub data Request : Type 0 where
  -- A reply to the interaction; the flag says that only the author sees it.
  edit_response : Bool → List Embed → Request
  -- A paginator that is built, started and goes out of scope.
  paginate : Bool → List Embed → Request
  -- The same with a text in place of embeds.
  edit_text : Bool → Text → Request
  paginate_texts : Bool → List Text → Request
  message_create : List Embed → Request
  execute_webhook : Text → List Embed → Request
  error_webhook : Text → Text → Request
  direct_message : ℕ → Text → Request
  -- A message to the author of a command with the errors of the bot.
  direct_errors : ℕ → Text → Request
  direct_embeds : ℕ → Text → List Embed → Request
  guild_member_kick : ℕ → Request
  -- A ban of a user, with the seconds of the messages to delete.
  guild_ban_add : ℕ → ℕ → Request
  -- The row of a temporary ban: its id, the user, and the seconds until its end.
  tempban : ℕ → ℕ → ℕ → Request
  -- A time-out of a user, until a time.
  guild_member_timeout : ℕ → ℕ → Request
  guild_member_timeout_remove : ℕ → Request
  guild_member_add_role : ℕ → ℕ → Request
  guild_member_delete_role : ℕ → ℕ → Request
  -- In a channel, `p_send_messages` is allowed to the role of everyone, or else denied.
  channel_edit_permissions : ℕ → Bool → Request
  permanent_timeout : ℕ → ℕ → Request
  modcase_insert : ℕ → Text → ℕ → Request
  modcase_insert_duration : ℕ → Text → Text → ℕ → Request
  command_insert : Text → Request
  -- Another statement that changes the database, with its parameters.
  exec_statement : Text → List Text → Request
  -- The end of a ban, and calls for data.
  guild_ban_delete : ℕ → Request
  user_get_cached : ℕ → Request
  guild_get_bans : ℕ → Request

-- The members of a wrapper object, and the requests that it has made, in order. Once `command` has
-- been moved into a paginator its pointers are null.
pub record Session : Type 0 where
  pub duration : Option Duration
  pub members : List Member
  pub members_with_errors : List Member
  pub errors : List Text
  pub cancel_operation : Bool
  pub error_embeds : List Embed
  pub moved : Bool
  pub requests : List Request

-- How a call of the Discord API ends.
pub data Completion : Type 0 where
  succeeded : Completion
  failed : ℕ → Text → Completion
