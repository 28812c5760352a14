-- ===== src/Provider/Issued.antt =====
-- What a token from `acquire` is good for, and what one query of the registry sends.
use esignet_relay_authentica.Prelude.{
  ℕ, ◌+◌, ◌*◌, ◌≤◌, ◌<◌, ◌≡◌, refl, sym, ap, subst, ◌∙◌, ◌≢◌, ◌⊎◌, inl, inr, true, ◌&&◌, not,
  Option, none, some, List, [], ◌∷◌, ◌++◌, ltb, eqb, ℤ, pos, negsuc, length, all, All, In, contains,
  contains_iff, nat_of, arith, Option-cases,
}
use esignet_relay_authentica.Text.{Text, text_eq, is_empty, runes}
use esignet_relay_authentica.Types.{Time, second, unix, Error, ok}
use esignet_relay_authentica.Config.{Config, parse_scope}
use esignet_relay_authentica.Provider.Runtime.{
  Outgoing, token_request, Env, World, expect, after_bind, after_require, after_expect,
}
use esignet_relay_authentica.Provider.Http.{
  request, TokenResponse, token_response, scope_granted, acceptable, capped, positive, token_form,
  acquire, decode_json,
}

-- What `acquire` has checked of the token and the lifetime that it returns.
pub record IsIssued (env : Env) (c : Config) (start : Time) (w after : World) (token : Text)
    (lifetime : Time) : Type 0 where
  pub assertion : Text
  pub signed :
      env.assertion c.token_client.client_id c.token_client.assertion_audience
        (unix start)
        (unix start + nat_of c.token_client.assertion_ttl_seconds)
      ≡ some assertion
  -- Just one request went out, and its answer decodes to the response.
  pub body : Text
  pub response : TokenResponse
  pub answered :
      request env c (token_request c.token_client.token_endpoint (token_form c assertion)) w
      ≡ (ok (200, body), after)
  pub decoded : decode_json env body token_response ≡ some response
  pub sent : after ≡ record w {
    log = w.log ++ token_request c.token_client.token_endpoint (token_form c assertion) ∷ [];
  }
  pub same : response.access_token ≡ token
  pub nonempty : token ≢ []
  pub short : length token ≤ 65_536
  pub printable : All (λ r. (32 < r) × (r < 127)) (runes token)
  -- A response that names scopes names every one that was asked for.
  pub granted :
      (response.scope ≡ none)
      ⊎ ((text : Text) × (scopes : List Text) × (response.scope ≡ some text)
          × (parse_scope text ≡ some scopes)
          × All (λ s. In s scopes) c.token_client.scopes)
  pub lives : 0 < lifetime
  pub bounded : lifetime ≤ nat_of c.token_client.token_cache_max_seconds * second

nonempty_list : {A : Type 0} (xs : List A) → not (is_empty xs) ≡ true → xs ≢ []
nonempty_list [] h = absurd (cc h)
nonempty_list (x ∷ xs) h = λ e. cc e

all_printable :
    (rs : List ℕ) → all (λ r. ltb 32 r && ltb r 127) rs ≡ true → All (λ r. (32 < r) × (r < 127)) rs
all_printable [] h = tt
all_printable (r ∷ rs) h = ((ground arith, ground arith), all_printable rs (ground arith))

all-In :
    (scopes wanted : List Text)
    → all (contains scopes) wanted ≡ true
    → All (λ s. In s scopes) wanted
all-In scopes [] h = tt
all-In scopes (s ∷ ss) h =
    ((contains_iff scopes s).0 (ground arith), all-In scopes ss (ground arith))

scope_granted_lem :
    (scope : Option Text) (wanted : List Text)
    → scope_granted scope wanted ≡ true
    → (scope ≡ none)
      ⊎ ((text : Text) × (scopes : List Text) × (scope ≡ some text)
          × (parse_scope text ≡ some scopes)
          × All (λ s. In s scopes) wanted)
unfolding scope_granted
scope_granted_lem none wanted h = inl refl
scope_granted_lem (some text) wanted h = elim (Option-cases (parse_scope text)) [
  | inl lost ↦ absurd (ground arith)
  | inr (scopes, found) ↦ inr (text, scopes, refl, found, all-In scopes wanted (ground arith))
]

capped_bounds :
    (expires cap : ℤ)
    → positive expires ≡ true
    → positive cap ≡ true
    → (0 < capped expires cap) × (capped expires cap ≤ nat_of cap * second)
unfolding capped
capped_bounds (pos n) (pos m) h k = ground arith
capped_bounds (negsuc n) cap h k = absurd (cc h)
capped_bounds (pos n) (negsuc m) h k = absurd (cc k)

eqb_200 : (n : ℕ) → eqb n 200 ≡ true → n ≡ 200
eqb_200 n h = ground arith

expect_world :
    {A : Type 0} (o : Option A) (e : Error) (a : A) (w after : World)
    → expect o e w ≡ (ok a, after)
    → w ≡ after
expect_world none e a w after h = absurd (cc h)
expect_world (some b) e a w after h = cc h

pub request_sent :
    (env : Env) (c : Config) (out : Outgoing) (w after : World) (answer : ℕ × Text)
    → request env c out w ≡ (ok answer, after)
    → after ≡ record w { log = w.log ++ out ∷ [] }
unfolding request
request_sent env c out w after answer h = after_bind _ _ _ h (λ response mid e h1.
    let kept = expect_world _ _ answer mid after h1 in
    let logged : record w { log = w.log ++ out ∷ [] } ≡ mid = cc e in sym (logged ∙ kept))

-- A token that `acquire` returns was issued to the client's own assertion by one request, is not
-- empty, at most 64 KiB of printable ASCII, carries every requested scope unless the response names
-- none, and is kept for a positive time within the configured maximum, which validation makes
-- positive.
pub acquire-IsIssued :
    (env : Env) (c : Config) (start : Time) (w after : World) (token : Text) (lifetime : Time)
    → positive c.token_client.token_cache_max_seconds ≡ true
    → acquire env c start w ≡ (ok (token, lifetime), after)
    → IsIssued env c start w after token lifetime
unfolding acquire acceptable
acquire-IsIssued env c start w after token lifetime cap h =
    after_expect _ _ _ _ h (λ assertion signed h1. after_require _ _ _ _ h1 (λ built h2.
      after_bind _ _ _ h2 (λ answer mid sent h3. after_require _ _ _ _ h3 (λ status h4.
        after_expect _ _ _ _ h4 (λ response decoded h5. after_require _ _ _ _ h5 (λ accepted h6.
          let last : mid ≡ after = cc h6 in
          let token_is : response.access_token ≡ token = cc h6 in
          let life_is : capped response.expires_in c.token_client.token_cache_max_seconds
              ≡ lifetime =
            cc h6 in
          let bounds =
            capped_bounds response.expires_in c.token_client.token_cache_max_seconds (ground arith)
              cap in
          let came = sent ∙ ap (λ (v : World). (ok answer, v)) last in
          record {
            assertion = assertion;
            signed = signed;
            body = answer.1;
            response = response;
            answered = came ∙ ap (λ (n : ℕ). (ok (n, answer.1), after)) (eqb_200 answer.0 status);
            decoded = decoded;
            sent = request_sent env c _ w after answer came;
            same = token_is;
            nonempty =
                subst (λ t. t ≢ []) token_is (nonempty_list response.access_token (ground arith));
            short = subst (λ t. length t ≤ 65_536) token_is (ground arith);
            printable =
                subst (λ t. All (λ r. (32 < r) × (r < 127)) (runes t)) token_is
                  (all_printable (runes response.access_token) (ground arith));
            granted = scope_granted_lem response.scope c.token_client.scopes (ground arith);
            lives = subst (λ t. 0 < t) life_is bounds.0;
            bounded =
                subst (λ t. t ≤ nat_of c.token_client.token_cache_max_seconds * second) life_is
                  bounds.1;
          }))))))
