-- ===== src/Keys/Tests.antt =====
-- Keys of awards, with the identity for the hash.
use ev_web3_award_system.Prelude.{◌≡◌, refl}
use ev_web3_award_system.Text.{Text, codes}
use ev_web3_award_system.Keys.{award_operation_key}
use ev_web3_award_system.Keys.Tuples.{Subject, award_of, operation_key-injective}

abbrev plain : Text → Text
plain s = s

abbrev long_id : Text
long_id = codes "session-2026"

award_key : award_operation_key plain (codes "acme") long_id ≡ codes "award:4:acme12:session-2026"
unfolding award_operation_key
award_key = refl

abbrev subject : Subject
subject = award_of (codes "acme") long_id

operation_key-injective_example : subject ≡ subject
operation_key-injective_example = operation_key-injective plain subject subject (λ e. e) refl
