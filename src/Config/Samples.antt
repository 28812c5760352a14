-- ===== src/Config/Samples.antt =====
-- A configuration, the parameters and the unfoldings of the tests.
use esignet_relay_authentica.Prelude.{true, false, some, [], ◌∷◌, contains, pos}
use esignet_relay_authentica.Text.{txt, text_beq, blank, pieces_from, split_on, join}
use esignet_relay_authentica.Types.{valid_text}
use esignet_relay_authentica.Config.Defs.{Config, defaults}
use esignet_relay_authentica.Config.Checks.{
  Net, valid_field, valid_scope_token, valid_scopes_from, valid_scopes, parse_scope, reserved_claim,
  valid_endpoint, valid_resource, atoi, valid_mailpit_address, count, valid_mail_address,
}
use esignet_relay_authentica.Config.Validate.{valid_route, valid_claim, checks, validate}
use esignet_relay_authentica.Config.Load.{
  scalar, mapping, document, node, end, also, Yaml, read_bounded, has_top_level_key, load_config,
}

-- Every text is an absolute https URL here; an address is split before its last five bytes.
abbrev pub sample_net : Net
sample_net = record {
  parse_url = λ s.
      some (record {
        scheme = txt "https";
        host = s;
        has_user = false;
        fragment = [];
        raw_query = [];
      });
  split_host_port = λ s. some (txt "mailpit", txt "1025");
  is_loopback = λ s. false;
}

abbrev pub sample : Config
sample = record {
  subject_id_type = [];
  psut_secret_file = txt "f";
  breg = record {
    base_url = txt "b";
    route = txt "population";
    selector = txt "by-uin";
    selector_field = [];
    access_profile = [];
    provisioned_fields = txt "uin" ∷ txt "status" ∷ txt "name" ∷ [];
    account_check_fields = [];
  };
  token_client = record {
    token_endpoint = txt "t";
    assertion_audience = txt "a";
    client_id = txt "c";
    private_key_file = txt "k";
    key_id = txt "i";
    resource = txt "urn";
    scopes = txt "read" ∷ txt "look" ∷ [];
    assertion_ttl_seconds = pos 0;
    token_cache_max_seconds = pos 0;
  };
  claim_map = (txt "sub", txt "$psut") ∷ (txt "n", txt "name") ∷ [];
  http = record {
    timeout_seconds = pos 0;
    max_response_bytes = pos 0;
    allow_insecure_http = false;
    ca_file = [];
  };
  demo = record {
    static_otp_enabled = false;
    static_otp_file = [];
    mailpit = record {
      enabled = true;
      smtp_address = txt "mailpit:1025";
      sender = txt "a@b";
      recipient = txt "c@d";
    };
  };
}

abbrev pub sample_yaml : Yaml
sample_yaml = record {
  parse = λ b. some (
      node document [] (
        also
          (node mapping [] (also (node scalar (txt "breg") end) (also (node mapping [] end) end)))
          end));
  decode_known = λ b. some sample;
  at_end = λ b. true;
}

-- Everything that the tests run.
unfoldable pub config : Unit {0}
unfolding defaults valid_field valid_scope_token valid_scopes_from valid_scopes parse_scope
    reserved_claim valid_endpoint valid_resource atoi valid_mailpit_address count valid_mail_address
    valid_route valid_claim checks validate valid_text blank pieces_from split_on join text_beq
    contains read_bounded has_top_level_key load_config
config = tt
