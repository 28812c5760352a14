-- ===== src/Provider/Rules.antt =====
-- Which errors an action can return: rules for the ways that actions are put together.
use esignet_relay_authentica.Prelude.{
  ◌≡◌, refl, ap, subst, Bool, true, false, Option, none, some, if◌then◌else◌,
}
use esignet_relay_authentica.Text.{text_eq}
use esignet_relay_authentica.Types.{Error, Result, ok, err}
use esignet_relay_authentica.Provider.Runtime.{
  World, Action, ◌>>=◌, ◌>>◌, return, fail, require, expect, mask, masked, then_run,
}

-- Every error of an action is one of `P`.
pub record Only (P : Error → Type 0) {A : Type 0} (action : Action A) : Type 0 where
  pub only : (w : World) (e : Error) → (action w).0 ≡ err e → P e

err_inj : {A : Type 0} {e f : Error} → Path (Result A) (err e) (err f) → e ≡ f
err_inj h = cc h

module _ (P : Error → Type 0) where
  then-Only :
      {A B : Type 0} (r : Result A × World) (next : A → Action B) (e : Error)
      → ((f : Error) → r.0 ≡ err f → P f)
      → ((a : A) → Only P (next a))
      → (then_run r next).0 ≡ err e
      → P e
  then-Only (ok a, w) next e first rest h = (rest a).only w e h
  then-Only (err f, w) next e first rest h = first e (ap err (err_inj h))

  pub Only-bind :
      {A B : Type 0} (action : Action A) (next : A → Action B)
      → Only P action
      → ((a : A) → Only P (next a))
      → Only P (action >>= next)
  unfolding ◌>>=◌
  Only-bind action next first rest = record {
    only = λ w e h. then-Only (action w) next e (first.only w) rest h;
  }

  pub Only-seq :
      {B : Type 0} (first : Action (Unit {0})) (second : Action B)
      → Only P first
      → Only P second
      → Only P (first >> second)
  unfolding ◌>>◌
  Only-seq first second one two = record {
    only = λ w e h. then-Only (first w) (λ _. second) e (one.only w) (λ _. two) h;
  }

  pub Only-require : (b : Bool) (f : Error) → (b ≡ false → P f) → Only P (require b f)
  Only-require true f p = record { only = λ w e h. absurd (cc h) }
  Only-require false f p = record { only = λ w e h. subst P (cc h) (p refl) }

  pub Only-expect : {A : Type 0} (o : Option A) (f : Error) → P f → Only P (expect o f)
  Only-expect none f p = record { only = λ w e h. subst P (cc h) p }
  Only-expect (some a) f p = record { only = λ w e h. absurd (cc h) }

  pub Only-fail : {A : Type 0} (f : Error) → P f → Only P (fail {A = A} f)
  Only-fail f p = record { only = λ w e h. subst P (cc h) p }

  pub Only-return : {A : Type 0} (a : A) → Only P (return a)
  Only-return a = record { only = λ w e h. absurd (cc h) }

  masked-Only :
      {A : Type 0} (f e : Error) (r : Result A × World) → P f → (masked f r).0 ≡ err e → P e
  masked-Only f e (ok a, w) p h = absurd (cc h)
  masked-Only f e (err g, w) p h = subst P (cc h) p

  pub Only-mask : {A : Type 0} (f : Error) (action : Action A) → P f → Only P (mask f action)
  Only-mask f action p = record { only = λ w e h. masked-Only f e (action w) p h }

  pub Only-if :
      {A : Type 0} (b : Bool) (x y : Action A) → Only P x → Only P y → Only P (if b then x else y)
  Only-if true x y p q = p
  Only-if false x y p q = q

pub Only-weaken :
    (P Q : Error → Type 0) {A : Type 0} (action : Action A)
    → ((e : Error) → P e → Q e)
    → Only P action
    → Only Q action
Only-weaken P Q action sub p = record { only = λ w e h. sub e (p.only w e h) }
