-- ===== src/Server/Members.antt =====
-- server/github.go: who may do what.
use mattermost_mattermod.Base.{String, Bool, mem}
use mattermost_mattermod.World.Monad.{Server, M, gets, ◌>>=◌}

-- IsOrgMember, in the members of the moment.
unfoldable pub is_org_member : String → M Bool
unfolding ◌>>=◌
is_org_member user = gets (λ w. mem user w.org_members)

-- IsInBotBlockList
unfoldable pub is_in_bot_block_list : Server → String → Bool
is_in_bot_block_list s user = mem user s.config.block_list_bots

-- IsBotUserFromCLAExclusionsList
unfoldable pub is_bot_user_from_cla_exclusions_list : Server → String → Bool
is_bot_user_from_cla_exclusions_list s user = mem user s.config.cla_exclusions_list
