-- ===== src/Config/Validate.antt =====
-- `Config.validate`.
use esignet_relay_authentica.Prelude.{
  Bool, ◌&&◌, ◌||◌, not, Option, none, some, List, [], ◌∷◌, ◌++◌, if◌then◌else◌, ◌==◌, all, any,
  contains, eqb, in_range,
}
use esignet_relay_authentica.Text.{Text, txt, text_eq, is_empty, blank, join}
use esignet_relay_authentica.Types.{valid_text}
use esignet_relay_authentica.Config.Defs.{Config}
use esignet_relay_authentica.Config.Checks.{
  Net, valid_field, valid_scopes, reserved_claim, valid_endpoint, valid_resource,
  valid_mailpit_address, valid_mail_address,
}

abbrev pub psut_source : Text
psut_source = txt "$psut"

unfoldable pub valid_route : Text → Bool
valid_route route =
    valid_text route
    && not (any (λ b. eqb b b'/' || eqb b b'\\' || eqb b b'?' || eqb b b'#') route)
    && not (route == txt ".")
    && not (route == txt "..")

-- The negation of the test in the loop over `claim_map`.
unfoldable pub valid_claim : Text × Text → Bool
valid_claim (k, v) =
    not (blank k)
    && (valid_field v || v == psut_source)
    && not (k == txt "sub" && not (v == psut_source))
    && not (reserved_claim k)

-- The fields whose check did not pass.
abbrev pub failures : List (Bool × Text) → List Text
failures [] = []
failures ((passed, field) ∷ cs) = if passed then failures cs else field ∷ failures cs

module _ (net : Net) where
  -- The calls of `check` in order; a loop that breaks at its first failure is one call.
  unfoldable pub checks : Config → List (Bool × Text)
  checks c =
      (valid_text c.subject_id_type, txt "subject_id_type")
      ∷ (not (blank c.psut_secret_file), txt "psut_secret_file")
      ∷ (valid_text c.token_client.client_id, txt "token_client.client_id")
      ∷ (not (blank c.token_client.private_key_file), txt "token_client.private_key_file")
      ∷ (valid_text c.token_client.key_id, txt "token_client.key_id")
      ∷ (valid_route c.breg.route, txt "breg.route")
      ∷ (valid_text c.breg.selector, txt "breg.selector")
      ∷ (valid_field c.breg.selector_field, txt "breg.selector_field")
      ∷ (
        valid_endpoint net c.token_client.token_endpoint c.http.allow_insecure_http,
        txt "token_client.token_endpoint",
      )
      ∷ (
        valid_endpoint net c.token_client.assertion_audience c.http.allow_insecure_http,
        txt "token_client.assertion_audience",
      )
      ∷ (valid_resource net c.token_client.resource, txt "token_client.resource")
      ∷ (valid_endpoint net c.breg.base_url c.http.allow_insecure_http, txt "breg.base_url")
      ∷ (
        in_range 1 300 c.token_client.assertion_ttl_seconds,
        txt "token_client.assertion_ttl_seconds",
      )
      ∷ (
        in_range 1 86400 c.token_client.token_cache_max_seconds,
        txt "token_client.token_cache_max_seconds",
      )
      ∷ (valid_scopes c.token_client.scopes, txt "token_client.scopes")
      ∷ (in_range 1 120 c.http.timeout_seconds, txt "http.timeout_seconds")
      ∷ (in_range 1 16_777_216 c.http.max_response_bytes, txt "http.max_response_bytes")
      ∷ (
        not c.demo.static_otp_enabled || not (blank c.demo.static_otp_file),
        txt "demo.static_otp_file",
      )
      ∷ (not c.demo.static_otp_enabled || not c.demo.mailpit.enabled, txt "demo.challenge_mode")
      ∷ (
        not c.demo.mailpit.enabled || valid_mailpit_address net c.demo.mailpit.smtp_address,
        txt "demo.mailpit.smtp_address",
      )
      ∷ (
        not c.demo.mailpit.enabled || valid_mail_address c.demo.mailpit.sender,
        txt "demo.mailpit.sender",
      )
      ∷ (
        not c.demo.mailpit.enabled || valid_mail_address c.demo.mailpit.recipient,
        txt "demo.mailpit.recipient",
      )
      ∷ (not (is_empty c.breg.provisioned_fields), txt "breg.provisioned_fields")
      ∷ (all valid_field c.breg.provisioned_fields, txt "breg.provisioned_fields")
      ∷ (not (is_empty c.breg.account_check_fields), txt "breg.account_check_fields")
      ∷ (
        all (λ s. valid_field s && contains c.breg.provisioned_fields s)
            c.breg.account_check_fields,
        txt "breg.account_check_fields",
      )
      ∷ (
        contains c.breg.account_check_fields c.breg.selector_field,
        txt "breg.account_check_fields",
      )
      ∷ (all valid_claim c.claim_map, txt "claim_map")
      ∷ []

  -- `none` is a nil error.
  unfoldable pub validate : Config → Option Text
  validate c =
      let invalid = failures (checks c) in
      if is_empty invalid
      then none
      else some (txt "configuration invalid: " ++ join (txt ", ") invalid)
