-- ===== src/Tests/Guild.antt =====
-- A bot, a moderator and a member, in a small guild.
use reactaio.Prelude.{
  ◌+◌, refl, true, false, List, [], ◌∷◌, none, some, ◌==◌, arith, codes, if◌then◌else◌,
}
use reactaio.UniqueVector.Insert.{Quiet}
use reactaio.Moderation.World.{
  Channel, Role, User, Member, World, Command, Session, member_key, role_key, user_key,
  member_target,
}
use reactaio.Moderation.Checks.{Verdict}
use reactaio.Moderation.World.{Target}
use reactaio.Moderation.Hybrid.{Hybrid}

-- The roles stand at their ids: 30 may do everything, 20 may do nothing.
abbrev pub staff_role : Role
staff_role = record {
  position = 9;
  mention = codes "@staff";
  has_kick_members = true;
  has_ban_members = true;
  has_moderate_members = true;
  has_manage_roles = true;
  has_manage_guild = true;
  has_view_audit_log = true;
}

abbrev pub plain_role : Role
plain_role = record {
  position = 1;
  mention = codes "@plain";
  has_kick_members = false;
  has_ban_members = false;
  has_moderate_members = false;
  has_manage_roles = false;
  has_manage_guild = false;
  has_view_audit_log = false;
}

abbrev pub bot : Member
bot = record {
  address = 1;
  user_id = 101;
  is_guild_owner = false;
  is_bot = true;
  mention = codes "@bot";
  username = codes "bot";
  roles = 30 ∷ [];
}

abbrev pub moderator : Member
moderator = record bot {
  address = 2;
  user_id = 102;
  is_bot = false;
  mention = codes "@moderator";
  username = codes "moderator";
}

abbrev pub member : Member
member = record moderator {
  address = 3;
  user_id = 103;
  mention = codes "@member";
  username = codes "member";
  roles = 20 ∷ [];
}

abbrev pub member_user : User
member_user = record {
  address = 2103;
  id = 103;
  mention = codes "@member";
  username = codes "member";
}

abbrev pub channel : Channel
channel = record { address = 50; id = 105; mention = codes "#general" }

-- Copies get addresses from 1000 on; what lies behind a vector is an object of another kind.
abbrev pub guild : World
guild = record {
  role_at = λ a. if a == 30 then some staff_role else if a == 20 then some plain_role else none;
  find_role = λ id. if id == 30 then 30 else 20;
  copy_role = λ id. 1000 + id;
  past_roles = λ roles. some 999;
  past_members = λ members. some (record member { address = 999 });
  past_users = λ users. some (record member_user { address = 998 });
  user_of = λ m. record {
    address = 2000 + m.user_id;
    id = m.user_id;
    mention = m.mention;
    username = m.username;
  };
  past_ids = λ ids. some 996;
  past_channels = λ channels. some (record channel { address = 997 });
  current_channel = channel;
  copy_user = λ u. record u { address = 3000 + u.id };
  ban_remove_days = some (some 7);
  ban_id = some (some 4);
  refuses_nested = false;
  executes_after_commit = false;
  relative_time = λ seconds. codes "soon";
  bot_member = bot;
  bot_id = 101;
  protected_roles = some (some (20 ∷ []));
  permitted_roles = λ name. 20 ∷ [];
  webhooks = λ column. none;
  lacks_webhooks = false;
  use_timeout = none;
  mute_role = none;
  timeout_id = some none;
  time_after = λ seconds. 1000000 + seconds;
  case_id = some (some 8);
  rows = λ name parameters. [];
  guild_id = 900;
  find_guild_member = λ g id. if g == 900 then some member else none;
  find_user = λ id. some member_user;
  find_channel = λ id. if id == 105 then some channel else none;
  copy_channel = λ a. record a { address = 4000 + a.address };
  member_count = codes "3";
}

abbrev pub command : Command
command = record {
  author = moderator;
  interaction = true;
  guild_name = codes "guild";
  reason = codes "spam";
  duration = [];
  delete_message_days = 0;
}

abbrev pub session : Session
session = record {
  duration = none;
  members = member ∷ [];
  members_with_errors = [];
  errors = [];
  cancel_operation = false;
  error_embeds = [];
  moved = false;
  requests = [];
}

abbrev pub verdict : Verdict
verdict = record { errors = []; cancel_operation = false; is_owner = false }

pub Quiet-20 : Quiet role_key guild.past_roles 20
Quiet-20 roles = (999, refl, ground arith)

pub Quiet-1020 : Quiet role_key guild.past_roles 1020
Quiet-1020 roles = (999, refl, ground arith)

pub Quiet-member : Quiet member_key guild.past_members member
Quiet-member members = (record member { address = 999 }, refl, ground arith)

pub Quiet-user : Quiet user_key guild.past_users member_user
Quiet-user users = (record member_user { address = 998 }, refl, ground arith)

-- The member is named by a snowflake.
abbrev pub targets : List Target
targets = member_target member ∷ []

abbrev pub hybrid : Hybrid
hybrid = record {
  base = record session { members = [] };
  snowflakes = targets;
  users = [];
  users_with_errors = [];
}

-- The wrapper once its snowflakes have been collected.
abbrev pub collected : Hybrid
collected = record hybrid { base = session; users = member_user ∷ [] }
