-- ===== src/Base/Text/Tests.antt =====
-- Runs of the text functions.
use mattermost_mattermod.Base.{◌≡◌, refl, ◌∷◌, [], true, some}
use mattermost_mattermod.Base.Text.{
  trim_space, contains, from_index, split, split2, replace_all, trim_suffix, trim_prefix, itoa,
  atoi, to_lower, join,
}

trim_space_run : trim_space "  a b \n" ≡ "a b"
unfolding trim_space
trim_space_run = refl

contains_run : contains "please /check-cla now" "/check-cla" ≡ true
unfolding contains
contains_run = refl

from_index_run : from_index "go /cherry-pick v1" "/cherry-pick" ≡ some "/cherry-pick v1"
unfolding from_index
from_index_run = refl

split_run : split "a//b" 47 ≡ "a" ∷ "" ∷ "b" ∷ []
unfolding split
split_run = refl

split2_run : split2 "sha1=a=b" 61 ≡ ("sha1", some "a=b")
unfolding split2
split2_run = refl

replace_all_run : replace_all "Hi USERNAME, USERNAME" "USERNAME" "bob" ≡ "Hi bob, bob"
unfolding replace_all
replace_all_run = refl

trim_suffix_run : trim_suffix "5.20.0" ".0" ≡ "5.20"
unfolding trim_suffix
trim_suffix_run = refl

trim_prefix_run : trim_prefix "b/a.go" "b/" ≡ "a.go"
unfolding trim_prefix
trim_prefix_run = refl

itoa_run : itoa 1207 ≡ "1207"
unfolding itoa
itoa_run = refl

to_lower_run : to_lower "MatterBot-1" ≡ "matterbot-1"
unfolding to_lower
to_lower_run = refl

join_run : join ("" ∷ "repos" ∷ "a" ∷ []) "/" ≡ "/repos/a"
unfolding join
join_run = refl

atoi_run : atoi "1207" ≡ some 1207
unfolding atoi
atoi_run = refl
