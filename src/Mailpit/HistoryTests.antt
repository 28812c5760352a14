-- ===== src/Mailpit/HistoryTests.antt =====
-- A code that is stored and tried twice, under two goroutines.
use esignet_relay_authentica.Prelude.{◌≡◌, refl, ◌↔◌, none, some, arith, lookup, insert, erase, All}
use esignet_relay_authentica.Text.{txt, text_eq, text_beq}
use esignet_relay_authentica.Types.{binding_beq, ChallengeRequest, ok}
use esignet_relay_authentica.Mailpit.Defs.{
  key_eq, key_beq, Challenge, challenge_key, mailpit_digest, verify, reserve, purge, store,
}
use esignet_relay_authentica.Mailpit.Interleaving.{
  System, idle_system, Reach, start, next, begin, commit, try,
}
use esignet_relay_authentica.Mailpit.History.{remembered}
use esignet_relay_authentica.Mailpit.Refined.{history, IsPast, Opens, verify-history}
use esignet_relay_authentica.Mailpit.Tests.{plain, try_code}

abbrev right : ChallengeRequest
right = try_code (txt "000042")

abbrev wrong : ChallengeRequest
wrong = try_code (txt "000043")

abbrev code : Challenge
code = record { digest = txt "s000042"; salt = txt "s"; expires = 300; attempts = 0 }

abbrev begun : System
begun = record idle_system { verifier = (reserve (λ i. 1) idle_system.verifier).0; reserved = 1 }

abbrev committed : System
committed = record begun {
  verifier = store (challenge_key right) code begun.verifier;
  reserved = 0;
  stored = 1;
}

abbrev missed : System
missed = record committed { verifier = (verify plain none 2 wrong committed.verifier).0 }

runs : Unit {0}
unfolding verify reserve purge mailpit_digest lookup insert erase key_beq binding_beq text_beq
    history remembered
runs = tt

one_miss : Reach plain missed
unfolding runs
one_miss =
    next
      (next (next start (begin (λ i. 1) refl))
        (commit (challenge_key right) code refl (omega arith)))
      (try none 2 wrong)

past : All (IsPast 5) (history plain one_miss)
unfolding runs one_miss
past = (tt, (tt, (λ i. omega arith, tt)))

verify-history_example :
    ((verify plain none 5 right missed.verifier).1 ≡ ok tt)
    ↔ Opens plain 5 right (remembered plain (history plain one_miss) (challenge_key right))
verify-history_example = verify-history plain one_miss 5 right past

-- The code still counts, and the attempt too.
history_tests :
    (remembered plain (history plain one_miss) (challenge_key right)
      ≡ some (record code { attempts = 1 }))
    × ((verify plain none 5 right missed.verifier).1 ≡ ok tt)
unfolding runs one_miss
history_tests = (refl, refl)
