-- ===== src/Config/Defs.antt =====
-- The configuration records and `Config.defaults`.
use esignet_relay_authentica.Prelude.{Bool, List, [], ◌∷◌, if◌then◌else◌, ℤ, pos, is_zero}
use esignet_relay_authentica.Text.{Text, txt, is_empty}

pub record BregConfig : Type 0 where
  pub base_url : Text
  pub route : Text
  pub selector : Text
  pub selector_field : Text
  pub access_profile : Text
  pub provisioned_fields : List Text
  pub account_check_fields : List Text

pub record TokenClientConfig : Type 0 where
  pub token_endpoint : Text
  pub assertion_audience : Text
  pub client_id : Text
  pub private_key_file : Text
  pub key_id : Text
  pub resource : Text
  pub scopes : List Text
  pub assertion_ttl_seconds : ℤ
  pub token_cache_max_seconds : ℤ

pub record HttpConfig : Type 0 where
  pub timeout_seconds : ℤ
  pub max_response_bytes : ℤ
  pub allow_insecure_http : Bool
  pub ca_file : Text

pub record MailpitConfig : Type 0 where
  pub enabled : Bool
  pub smtp_address : Text
  pub sender : Text
  pub recipient : Text

pub record DemoConfig : Type 0 where
  pub static_otp_enabled : Bool
  pub static_otp_file : Text
  pub mailpit : MailpitConfig

pub record Config : Type 0 where
  pub subject_id_type : Text
  pub psut_secret_file : Text
  pub breg : BregConfig
  pub token_client : TokenClientConfig
  pub claim_map : List (Text × Text)
  pub http : HttpConfig
  pub demo : DemoConfig

-- A value that is not set takes its default.
abbrev or_text : Text → Text → Text
or_text s default = if is_empty s then default else s

abbrev or_int : ℤ → ℤ → ℤ
or_int i default = if is_zero i then default else i

abbrev or_list : List Text → List Text → List Text
or_list l default = if is_empty l then default else l

unfoldable pub defaults : Config → Config
defaults c = record {
  subject_id_type = or_text c.subject_id_type (txt "uin");
  psut_secret_file = c.psut_secret_file;
  breg = record c.breg {
    account_check_fields = or_list c.breg.account_check_fields (txt "uin" ∷ txt "status" ∷ []);
    selector_field = or_text c.breg.selector_field (txt "uin");
  };
  token_client = record c.token_client {
    assertion_ttl_seconds = or_int c.token_client.assertion_ttl_seconds (pos 120);
    token_cache_max_seconds = or_int c.token_client.token_cache_max_seconds (pos 300);
  };
  claim_map = c.claim_map;
  http = record c.http {
    timeout_seconds = or_int c.http.timeout_seconds (pos 10);
    max_response_bytes = or_int c.http.max_response_bytes (pos 1_048_576);
  };
  demo = c.demo;
}
