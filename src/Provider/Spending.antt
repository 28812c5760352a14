-- ===== src/Provider/Spending.antt =====
-- How much an action reads and sends: rules for the ways that actions are put together.
use esignet_relay_authentica.Prelude.{
  ℕ, ◌+◌, ◌≤◌, ◌≡◌, refl, subst, sym, ap, ◌∙◌, Bool, true, false, Option, none, some, List, [], ◌∷◌,
  ◌++◌, append_assoc, append-nil, arith, if◌then◌else◌,
}
use esignet_relay_authentica.Types.{Error, Result, ok, err}
use esignet_relay_authentica.Token.{Cache}
use esignet_relay_authentica.Provider.Runtime.{
  Outgoing, token_request, lookup_request, Env, World, Action, ◌>>=◌, ◌>>◌, return, fail, require,
  expect, mask, masked, then_run, with_lock, now, is_done, send,
}

unfoldable pub token_requests : List Outgoing → ℕ
token_requests [] = 0
token_requests (token_request endpoint form ∷ log) = 1 + token_requests log
token_requests (lookup_request base route query body bearer ∷ log) = token_requests log

unfoldable pub lookup_requests : List Outgoing → ℕ
lookup_requests [] = 0
lookup_requests (token_request endpoint form ∷ log) = lookup_requests log
lookup_requests (lookup_request base route query body bearer ∷ log) = 1 + lookup_requests log

-- From one world to another: at most so many readings, token requests and lookups.
pub record IsSpent (looks tokens lookups : ℕ) (w after : World) : Type 0 where
  pub sent : List Outgoing
  pub logged : after.log ≡ w.log ++ sent
  pub few_tokens : token_requests sent ≤ tokens
  pub few_lookups : lookup_requests sent ≤ lookups
  pub few_looks : after.looks ≤ w.looks + looks

pub record Spends (looks tokens lookups : ℕ) {A : Type 0} (action : Action A) : Type 0 where
  pub spends : (w : World) → IsSpent looks tokens lookups w (action w).1

token_requests-append :
    (s t : List Outgoing) → token_requests (s ++ t) ≡ token_requests s + token_requests t
unfolding token_requests
token_requests-append [] t = omega arith
token_requests-append (token_request endpoint form ∷ s) t = omega (arith, token_requests-append s t)
token_requests-append (lookup_request base route query body bearer ∷ s) t =
    token_requests-append s t

lookup_requests-append :
    (s t : List Outgoing) → lookup_requests (s ++ t) ≡ lookup_requests s + lookup_requests t
unfolding lookup_requests
lookup_requests-append [] t = omega arith
lookup_requests-append (token_request endpoint form ∷ s) t = lookup_requests-append s t
lookup_requests-append (lookup_request base route query body bearer ∷ s) t =
    omega (arith, lookup_requests-append s t)

IsSpent-nothing : (looks tokens lookups : ℕ) (w : World) → IsSpent looks tokens lookups w w
unfolding token_requests lookup_requests
IsSpent-nothing looks tokens lookups w = record {
  sent = [];
  logged = sym (append-nil w.log);
  few_tokens = omega arith;
  few_lookups = omega arith;
  few_looks = omega arith;
}

IsSpent-trans :
    (n t l m u k : ℕ) (w mid after : World)
    → IsSpent n t l w mid
    → IsSpent m u k mid after
    → IsSpent (n + m) (t + u) (l + k) w after
IsSpent-trans n t l m u k w mid after a b = record {
  sent = a.sent ++ b.sent;
  logged =
      b.logged
      ∙ ap (λ (s : List Outgoing). s ++ b.sent) a.logged
      ∙ append_assoc w.log a.sent b.sent;
  few_tokens = omega (arith, token_requests-append a.sent b.sent, a.few_tokens, b.few_tokens);
  few_lookups = omega (arith, lookup_requests-append a.sent b.sent, a.few_lookups, b.few_lookups);
  few_looks = omega (arith, a.few_looks, b.few_looks);
}

IsSpent-more :
    (n t l m u k : ℕ) (w after : World)
    → n ≤ m
    → t ≤ u
    → l ≤ k
    → IsSpent n t l w after
    → IsSpent m u k w after
IsSpent-more n t l m u k w after x y z a = record {
  sent = a.sent;
  logged = a.logged;
  few_tokens = omega (arith, a.few_tokens);
  few_lookups = omega (arith, a.few_lookups);
  few_looks = omega (arith, a.few_looks);
}

then-IsSpent :
    {A B : Type 0} (n t l m u k : ℕ) (r : Result A × World) (next : A → Action B) (w : World)
    → IsSpent n t l w r.1
    → ((a : A) → Spends m u k (next a))
    → IsSpent (n + m) (t + u) (l + k) w (then_run r next).1
then-IsSpent n t l m u k (ok a, mid) next w first rest =
    IsSpent-trans n t l m u k w mid (next a mid).1 first ((rest a).spends mid)
then-IsSpent n t l m u k (err e, mid) next w first rest =
    IsSpent-more n t l (n + m) (t + u) (l + k) w mid (omega arith) (omega arith) (omega arith) first

pub Spends-bind :
    {A B : Type 0} (n t l m u k : ℕ) (action : Action A) (next : A → Action B)
    → Spends n t l action
    → ((a : A) → Spends m u k (next a))
    → Spends (n + m) (t + u) (l + k) (action >>= next)
unfolding ◌>>=◌
Spends-bind n t l m u k action next first rest = record {
  spends = λ w. then-IsSpent n t l m u k (action w) next w (first.spends w) rest;
}

pub Spends-seq :
    {B : Type 0} (n t l m u k : ℕ) (first : Action (Unit {0})) (second : Action B)
    → Spends n t l first
    → Spends m u k second
    → Spends (n + m) (t + u) (l + k) (first >> second)
unfolding ◌>>◌
Spends-seq n t l m u k first second one two = record {
  spends = λ w. then-IsSpent n t l m u k (first w) (λ _. second) w (one.spends w) (λ _. two);
}

pub Spends-more :
    {A : Type 0} (n t l m u k : ℕ) (action : Action A)
    → n ≤ m
    → t ≤ u
    → l ≤ k
    → Spends n t l action
    → Spends m u k action
Spends-more n t l m u k action x y z s = record {
  spends = λ w. IsSpent-more n t l m u k w (action w).1 x y z (s.spends w);
}

module _ (n t l : ℕ) where
  pub Spends-return : {A : Type 0} (a : A) → Spends n t l (return a)
  Spends-return a = record { spends = λ w. IsSpent-nothing n t l w }

  pub Spends-fail : {A : Type 0} (e : Error) → Spends n t l (fail {A = A} e)
  Spends-fail e = record { spends = λ w. IsSpent-nothing n t l w }

  pub Spends-require : (b : Bool) (e : Error) → Spends n t l (require b e)
  Spends-require true e = record { spends = λ w. IsSpent-nothing n t l w }
  Spends-require false e = record { spends = λ w. IsSpent-nothing n t l w }

  pub Spends-expect : {A : Type 0} (o : Option A) (e : Error) → Spends n t l (expect o e)
  Spends-expect none e = record { spends = λ w. IsSpent-nothing n t l w }
  Spends-expect (some a) e = record { spends = λ w. IsSpent-nothing n t l w }

  pub Spends-lift : {A : Type 0} (r : Result A) → Spends n t l (λ w. (r, w))
  Spends-lift r = record { spends = λ w. IsSpent-nothing n t l w }

  masked-world : {A : Type 0} (e : Error) (r : Result A × World) → (masked e r).1 ≡ r.1
  masked-world e (ok a, w) = refl
  masked-world e (err f, w) = refl

  pub Spends-mask :
      {A : Type 0} (e : Error) (action : Action A)
      → Spends n t l action
      → Spends n t l (mask e action)
  Spends-mask e action s = record {
    spends = λ w. subst (IsSpent n t l w) (sym (masked-world e (action w))) (s.spends w);
  }

  pub Spends-if :
      {A : Type 0} (b : Bool) (x y : Action A)
      → Spends n t l x
      → Spends n t l y
      → Spends n t l (if b then x else y)
  Spends-if true x y p q = p
  Spends-if false x y p q = q

module _ (env : Env) where
  IsSpent-look :
      (w : World) (cache : Cache)
      → IsSpent 1 0 0 w (record w { looks = w.looks + 1; cache = cache })
  unfolding token_requests lookup_requests
  IsSpent-look w cache = record {
    sent = [];
    logged = sym (append-nil w.log);
    few_tokens = omega arith;
    few_lookups = omega arith;
    few_looks = omega arith;
  }

  pub Spends-now : Spends 1 0 0 (now env)
  Spends-now = record { spends = λ w. IsSpent-look w w.cache }

  pub Spends-is_done : Spends 1 0 0 (is_done env)
  Spends-is_done = record { spends = λ w. IsSpent-look w w.cache }

  pub Spends-with_lock :
      {A : Type 0} (section : Cache → A × Cache) → Spends 1 0 0 (with_lock env section)
  Spends-with_lock section = record {
    spends = λ w. IsSpent-look w (section (env.others w.looks w.cache)).1;
  }

  pub Spends-send :
      (out : Outgoing)
      → Spends 0 (token_requests (out ∷ [])) (lookup_requests (out ∷ [])) (send env out)
  Spends-send out = record {
    spends = λ w. record {
      sent = out ∷ [];
      logged = refl;
      few_tokens = omega arith;
      few_lookups = omega arith;
      few_looks = omega arith;
    };
  }
