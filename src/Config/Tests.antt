-- ===== src/Config/Tests.antt =====
-- A configuration that passes, some that do not, and the theorems at them.
use esignet_relay_authentica.Prelude.{
  ◌≡◌, refl, false, ◌&&◌, not, none, some, [], ◌∷◌, all, pos, negsuc,
}
use esignet_relay_authentica.Text.{txt, is_empty}
use esignet_relay_authentica.Config.Defs.{Config, defaults}
use esignet_relay_authentica.Config.Checks.{
  field_rune, valid_field, parse_scope, atoi, valid_mail_address,
}
use esignet_relay_authentica.Config.Validate.{validate}
use esignet_relay_authentica.Config.Fields.{valid_field_bytes}
use esignet_relay_authentica.Config.Accepted.{IsAccepted, validate-IsAccepted}
use esignet_relay_authentica.Config.Load.{
  scalar, mapping, document, node, end, also, done, failed, load_config, IsLoaded,
  load_config-IsLoaded,
}
use esignet_relay_authentica.Config.Samples.{sample_yaml, sample_net, sample, config}

validate_tests :
    (validate sample_net (defaults sample) ≡ none)
    × (validate sample_net (record (defaults sample) { claim_map = (txt "sub", txt "name") ∷ [] })
        ≡ some (txt "configuration invalid: claim_map"))
    × (validate sample_net
          (record (defaults sample) { subject_id_type = txt " "; psut_secret_file = [] })
        ≡ some (txt "configuration invalid: subject_id_type, psut_secret_file"))
unfolding config
validate_tests = (refl, refl, refl)

check_tests :
    (parse_scope (txt "a  b") ≡ none)
    × (parse_scope (txt "a b") ≡ some (txt "a" ∷ txt "b" ∷ []))
    × (valid_mail_address (txt "a@b@c") ≡ false)
    × (atoi (txt "-5") ≡ some (negsuc 4))
    × (atoi (txt "+12") ≡ some (pos 12))
    × (valid_field (0xc3 ∷ 0xa9 ∷ []) ≡ false)
unfolding config
check_tests = (refl, refl, refl, refl, refl, refl)

validate-IsAccepted_example : IsAccepted (defaults sample)
validate-IsAccepted_example = validate-IsAccepted sample_net (defaults sample) validate_tests.0

abbrev bad : Config
bad = record (defaults sample) { claim_map = (txt "sub", txt "name") ∷ [] }

valid_field_bytes_example :
    valid_field (txt "uin") ≡ (not (is_empty (txt "uin")) && all field_rune (txt "uin"))
valid_field_bytes_example = valid_field_bytes (txt "uin")

load_tests :
    (load_config sample_net sample_yaml (some (txt "x")) ≡ done (defaults sample))
    × (load_config sample_net
          (record sample_yaml {
            parse = λ b. some (
                node document [] (
                  also
                    (node mapping []
                      (also (node scalar (txt "mint") end) (also (node scalar [] end) end)))
                    end));
          })
          (some (txt "x"))
        ≡ failed (txt "configuration invalid: mint is retired; use token_client"))
unfolding config
load_tests = (refl, refl)

load_config-IsLoaded_example : IsLoaded sample_net sample_yaml (some (txt "x")) (defaults sample)
load_config-IsLoaded_example =
    load_config-IsLoaded sample_net sample_yaml (some (txt "x")) (defaults sample) load_tests.0
