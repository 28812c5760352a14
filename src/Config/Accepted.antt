-- ===== src/Config/Accepted.antt =====
-- What a configuration that `validate` accepts guarantees, what the error of a rejected one names,
-- and that the defaults are stable.
use esignet_relay_authentica.Prelude.{
  ◌≤◌, ◌≡◌, refl, ◌≢◌, ◌↔◌, ◌⊎◌, Bool, true, false, ◌&&◌, none, some, List, [], ◌∷◌, ◌++◌, all, All,
  In, Distinct, arith, ==_iff, contains, contains_iff, in_range_bounds, nat_of, length,
}
use esignet_relay_authentica.Text.{Text, txt, is_empty, text_eq, join, blank}
use esignet_relay_authentica.Config.Defs.{Config, defaults}
use esignet_relay_authentica.Config.Checks.{Net, valid_field, valid_scopes, reserved_claim}
use esignet_relay_authentica.Config.Scopes.{valid_scopes_sound}
use esignet_relay_authentica.Config.Validate.{checks, failures, validate, valid_claim, psut_source}

-- A claim that may be mapped: named, not reserved, and `sub` only ever the pairwise subject.
pub record IsMapped (entry : Text × Text) : Type 0 where
  pub named : blank entry.0 ≡ false
  pub open_claim : reserved_claim entry.0 ≡ false
  pub source : (valid_field entry.1 ≡ true) ⊎ (entry.1 ≡ psut_source)
  pub subject : entry.0 ≡ txt "sub" → entry.1 ≡ psut_source

pub record IsAccepted (c : Config) : Type 0 where
  pub ttl :
      (1 ≤ nat_of c.token_client.assertion_ttl_seconds)
      × (nat_of c.token_client.assertion_ttl_seconds ≤ 300)
  pub cache :
      (1 ≤ nat_of c.token_client.token_cache_max_seconds)
      × (nat_of c.token_client.token_cache_max_seconds ≤ 86400)
  pub timeout : (1 ≤ nat_of c.http.timeout_seconds) × (nat_of c.http.timeout_seconds ≤ 120)
  pub response :
      (1 ≤ nat_of c.http.max_response_bytes) × (nat_of c.http.max_response_bytes ≤ 16_777_216)
  pub one_demo : (c.demo.static_otp_enabled ≡ false) ⊎ (c.demo.mailpit.enabled ≡ false)
  pub scopes :
      (c.token_client.scopes ≢ [])
      × (length c.token_client.scopes ≤ 32)
      × Distinct c.token_client.scopes
  pub scopes_pass : valid_scopes c.token_client.scopes ≡ true
  pub provisioned : all valid_field c.breg.provisioned_fields ≡ true
  pub account_nonempty : c.breg.account_check_fields ≢ []
  pub account_fields : all valid_field c.breg.account_check_fields ≡ true
  pub account_provisioned : All (λ f. In f c.breg.provisioned_fields) c.breg.account_check_fields
  pub selector : In c.breg.selector_field c.breg.account_check_fields
  pub claims : All IsMapped c.claim_map

all_passed : (cs : List (Bool × Text)) → is_empty (failures cs) ≡ true → All (λ p. p.0 ≡ true) cs
all_passed [] h = tt
all_passed ((true, f) ∷ cs) h = (refl, all_passed cs h)
all_passed ((false, f) ∷ cs) h = cc

valid_claim-IsMapped : (entry : Text × Text) → valid_claim entry ≡ true → IsMapped entry
unfolding valid_claim
valid_claim-IsMapped (k, v) h = record {
  named = ground arith;
  open_claim = ground arith;
  source = ground (arith, ==_iff v psut_source);
  subject = λ e. ground (arith, ==_iff v psut_source, ==_iff k (txt "sub"));
}

all_claims : (entries : List (Text × Text)) → all valid_claim entries ≡ true → All IsMapped entries
all_claims [] h = tt
all_claims (e ∷ es) h = (valid_claim-IsMapped e (ground arith), all_claims es (ground arith))

account_fields-In :
    (provisioned fields : List Text)
    → all (λ s. valid_field s && contains provisioned s) fields ≡ true
    → (all valid_field fields ≡ true) × All (λ f. In f provisioned) fields
account_fields-In provisioned [] h = (refl, tt)
account_fields-In provisioned (f ∷ fs) h =
    let (valid, listed) = account_fields-In provisioned fs (ground arith) in
    (ground arith, ((contains_iff provisioned f).0 (ground arith), listed))

from_checks : (net : Net) (c : Config) → All (λ p. p.0 ≡ true) (checks net c) → IsAccepted c
unfolding checks
from_checks net c
      (
        _,
        (
          _,
          (
            _,
            (
              _,
              (
                _,
                (
                  _,
                  (
                    _,
                    (
                      _,
                      (
                        _,
                        (
                          _,
                          (
                            _,
                            (
                              _,
                              (
                                ttl,
                                (
                                  cache,
                                  (
                                    scopes,
                                    (
                                      timeout,
                                      (
                                        response,
                                        (
                                          _,
                                          (
                                            one_demo,
                                            (
                                              _,
                                              (
                                                _,
                                                (
                                                  _,
                                                  (
                                                    _,
                                                    (
                                                      provisioned,
                                                      (
                                                        nonempty,
                                                        (account, (selector, (claims, _))),
                                                      ),
                                                    ),
                                                  ),
                                                ),
                                              ),
                                            ),
                                          ),
                                        ),
                                      ),
                                    ),
                                  ),
                                ),
                              ),
                            ),
                          ),
                        ),
                      ),
                    ),
                  ),
                ),
              ),
            ),
          ),
        ),
      ) =
    let (valid, listed) =
      account_fields-In c.breg.provisioned_fields c.breg.account_check_fields account in
    record {
      ttl = in_range_bounds 1 300 c.token_client.assertion_ttl_seconds ttl;
      cache = in_range_bounds 1 86400 c.token_client.token_cache_max_seconds cache;
      timeout = in_range_bounds 1 120 c.http.timeout_seconds timeout;
      response = in_range_bounds 1 16_777_216 c.http.max_response_bytes response;
      one_demo = ground arith;
      scopes = valid_scopes_sound c.token_client.scopes scopes;
      scopes_pass = scopes;
      provisioned = provisioned;
      account_nonempty = λ e. ground arith;
      account_fields = valid;
      account_provisioned = listed;
      selector = (contains_iff c.breg.account_check_fields c.breg.selector_field).0 selector;
      claims = all_claims c.claim_map claims;
    }

-- A configuration that `validate` lets through has every duration, size and lifetime in its range;
-- at most one demo verifier; nonempty, distinct scopes; a nonempty list of account check fields that
-- are all valid, provisioned names and contain the selector field; and a claim map whose claims are
-- named and not reserved, map to valid fields or the pairwise subject, and map `sub` to nothing else
-- than the latter.
pub validate-IsAccepted : (net : Net) (c : Config) → validate net c ≡ none → IsAccepted c
unfolding validate
validate-IsAccepted net c h = from_checks net c (all_passed (checks net c) (ground arith))

In-failures_iff : (f : Text) (cs : List (Bool × Text)) → In f (failures cs) ↔ In (false, f) cs
In-failures_iff f [] = (λ i. i, λ i. i)
In-failures_iff f ((true, g) ∷ cs) = ground (arith, In-failures_iff f cs)
In-failures_iff f ((false, g) ∷ cs) = ground (arith, In-failures_iff f cs)

-- The error of a rejected configuration lists, after a fixed prefix, exactly the fields of which a
-- check failed, and at least one.
pub validate-eq-some :
    (net : Net) (c : Config) (message : Text)
    → validate net c ≡ some message
    → (names : List Text) × (message ≡ txt "configuration invalid: " ++ join (txt ", ") names)
      × (names ≢ [])
      × ((f : Text) → In f names ↔ In (false, f) (checks net c))
unfolding validate
validate-eq-some net c message h = (
  failures (checks net c),
  ground arith,
  (λ e. ground arith),
  λ f. In-failures_iff f (checks net c),
)

-- Filling in the defaults a second time changes nothing.
pub defaults_idempotent : (c : Config) → defaults (defaults c) ≡ defaults c
unfolding defaults
defaults_idempotent c = ground arith
