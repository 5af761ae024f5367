-- ===== src/Background/Pull/Tests.antt =====
-- Claims and a death on a small table.
use django_logic.Prelude.{◌≤◌, ◌≡◌, ◌≢◌, refl, true, false, some, [], ◌∷◌, Among, inl, arith}
use django_logic.Exec.{ok}
use django_logic.Django.{Message}
use django_logic.Atomic.{with_atomic}
use django_logic.World.{query, World, sees}
use django_logic.Background.SafetyNets.{is_claimable}
use django_logic.Background.Pull.{first_unlocked, claim_next}
use django_logic.Background.Pull.Claim.{is_free, claim_next-oldest}
use django_logic.Background.Pull.Death.{after_death, record_child_death-paced}
use django_logic.Sample.Site.{site, draft, start, queued}

abbrev young : Message
young = record queued { pk = 2; created = 950000 }

abbrev waiting : World site
waiting = start (young ∷ queued ∷ []) draft false

claimed : (claim_next (1 ∷ []) waiting).0 ≡ ok (some 1)
unfolding claim_next with_atomic first_unlocked query
claimed = refl

claim_next-oldest_example :
    (m : Message) × ((claim_next (1 ∷ []) waiting).0 ≡ ok (some m.pk))
    × Among m (sees waiting).rows
    × (is_claimable site.settings waiting.now (some (1 ∷ [])) m ≡ true)
    × (is_free waiting m ≡ true)
    × (m.created ≤ young.created)
unfolding is_claimable
claim_next-oldest_example = claim_next-oldest waiting (1 ∷ []) refl young (inl refl) refl refl

record_child_death-paced_example :
    (claim_next (1 ∷ []) (after_death waiting 1 1100000)).0 ≢ ok (some 1)
record_child_death-paced_example =
    record_child_death-paced waiting refl 1 1100000 (1 ∷ []) (omega arith)
