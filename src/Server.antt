-- ===== src/Server.antt =====
-- package server: the handlers of webhook events and the periodic tasks.
pub mod Frame
pub mod Soundness
pub mod Pages
pub mod Github
pub mod Members
pub mod BlockMerge
pub mod AutoMerge
pub mod Webhook
pub mod Cla
pub mod CommentLock
pub mod Community
pub mod Fetch
pub mod Changes
pub mod Review
pub mod CherryPick
pub mod PullRequestEvent
pub mod IssueEvent
pub mod UpdateBranch
pub mod AutoAssign
pub mod IssueCommentEvent
pub mod Tasks
pub mod Tick
pub mod Transport
pub mod Http
