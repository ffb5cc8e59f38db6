-- ===== src/Event/Topics.antt =====
-- event/topic.go, domain.go and action.go: topics and how a filter matches them.
use shahboard.Base.{Bool, true, false, ◌&&◌, not, if◌then◌else◌}
use shahboard.Types.{Bytes, bytes, same_id}

pub record Topic : Type 0 where
  pub domain : Bytes
  pub action : Bytes
  pub resource : Bytes

-- `ResourceAny`, `DomainAny` and `ActionAny`
abbrev pub any : Bytes
any = bytes "*"

abbrev pub domain_user : Bytes
domain_user = bytes "user"

abbrev pub domain_game : Bytes
domain_game = bytes "game"

abbrev pub domain_match : Bytes
domain_match = bytes "match"

abbrev pub domain_game_chat : Bytes
domain_game_chat = bytes "game_chat"

unfoldable pub new_topic : Bytes → Bytes → Topic
new_topic d a = record { domain = d; action = a; resource = any }

unfoldable pub set_resource : Topic → Bytes → Topic
set_resource t r = record { domain = t.domain; action = t.action; resource = r }

-- `t.Match(filter)`
unfoldable pub matches : Topic → Topic → Bool
matches t filter =
    if same_id filter.domain any && (same_id filter.action any && same_id filter.resource any)
    then true
    else if not (same_id t.domain filter.domain)
    then false
    else if not (same_id filter.action any) && not (same_id t.action filter.action)
    then false
    else if not (same_id filter.resource any) && not (same_id t.resource filter.resource)
    then false
    else true
