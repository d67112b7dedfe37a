-- ===== src/Server/AutoMerge/Sound.antt =====
-- server/auto_merge.go: AutoMergePR keeps the program sound.
use mattermost_mattermod.Base.{refl, []}
use mattermost_mattermod.World.{World}
use mattermost_mattermod.World.Monad.{Server}
use mattermost_mattermod.World.Monad.Keeps.{Keeps}
use mattermost_mattermod.Server.Soundness.{Sound}
use mattermost_mattermod.Server.AutoMerge.{auto_merge_pr}
use mattermost_mattermod.Server.AutoMerge.Rest.{auto_merge_pr-Rest}
use mattermost_mattermod.Server.AutoMerge.Readiness.{auto_merge_pr-said}

pub auto_merge_pr-Sound : (s : Server) → Keeps (Sound s) (auto_merge_pr s)
auto_merge_pr-Sound s = record { at = go }
  where
    go : (w : World) → Sound s w → Sound s (auto_merge_pr s w).1
    go w h =
        let same = (auto_merge_pr-Rest w s).at w (refl, refl, refl, ([], refl)) in
        record {
          pull_requests = rw same.0 h.pull_requests;
          issues = rw same.1 h.issues;
          queue = rw same.2 h.queue;
          merges = auto_merge_pr-said s w h.merges;
        }
