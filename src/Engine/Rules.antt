-- ===== src/Engine/Rules.antt =====
-- Where a successful reply of the adapter came from, as rules for a goal `C`.
use esignet_relay_authentica.Prelude.{◌≡◌, refl, ap, Bool, true, false, Option, none, some}
use esignet_relay_authentica.Types.{Result, ok, err}
use esignet_relay_authentica.Provider.{World}
use esignet_relay_authentica.Engine.Defs.{
  Reply, done, fault, Service, answered, with_reply, or_fault, demand,
}

module _ {B : Type 0} {b : B} {after : World} where
  pub after_reply :
      {A C : Type 0} (r : Reply A) (next : A → Service B) (w : World)
      → with_reply r next w ≡ (done b, after)
      → ((a : A) → r ≡ done a → next a w ≡ (done b, after) → C)
      → C
  unfolding with_reply
  after_reply (done a) next w h goal = goal a refl h
  after_reply (fault e) next w h goal = absurd (cc h)

  pub after_answer :
      {A C : Type 0} (finish : A → Reply B) (r : Result A × World)
      → answered finish r ≡ (done b, after)
      → ((a : A) → r ≡ (ok a, after) → finish a ≡ done b → C)
      → C
  unfolding answered
  after_answer finish (ok a, w) h goal = goal a (ap (λ (v : World). (ok a, v)) (cc h)) (cc h)
  after_answer finish (err e, w) h goal = absurd (cc h)

pub or_fault-done : {A : Type 0} (o : Option A) (a : A) → or_fault o ≡ done a → o ≡ some a
or_fault-done none a h = absurd (cc h)
or_fault-done (some x) a h = ap some (cc h)

pub demand-done : (b : Bool) → demand b ≡ done tt → b ≡ true
demand-done true h = refl
demand-done false h = absurd (cc h)
