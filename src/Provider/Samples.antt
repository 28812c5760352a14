-- ===== src/Provider/Samples.antt =====
-- A small configuration, an environment and a caller for the tests.
use esignet_relay_authentica.Prelude.{
  ◌*◌, true, false, Option, none, some, List, [], ◌∷◌, contains, insert, lookup, pos, ◌==◌,
  if◌then◌else◌,
}
use esignet_relay_authentica.Text.{
  Text, txt, text_eq, text_beq, blank, pieces_from, split_on, join, equal_fold, valid_utf8,
  sanitize,
}
use esignet_relay_authentica.Types.{
  second, Binding, ChallengeRequest, challenge_failed, valid_text, valid_binding, binding_eq,
  binding_beq,
}
use esignet_relay_authentica.Json.{
  Value, int, str, obj, end, member, quote, marshal, marshal_object, sort_members, insert_sorted,
  text_lt, same_name, field_from, marshal_strings, marshal_int,
}
use esignet_relay_authentica.Config.{Config, parse_scope, valid_scope_token}
use esignet_relay_authentica.Token.{empty_cache, enter, settle}
use esignet_relay_authentica.Provider.Base64.{encode}
use esignet_relay_authentica.Provider.Psut.{AuthContext, psut, psut_tuple}
use esignet_relay_authentica.Provider.Context.{
  field_of, set_field, decode_members, marshal_state, decode_state, redecode, context_map,
  valid_subject, bound_to, checked, restore,
}
use esignet_relay_authentica.Provider.Restore.{opened}
use esignet_relay_authentica.Provider.Runtime.{
  Outgoing, token_request, lookup_request, Response, Env, World, ◌>>=◌, ◌>>◌,
}
use esignet_relay_authentica.Provider.Http.{
  read_limited, request, decode_json, token_response, scope_granted, acceptable, capped, token_form,
  acquire, access_turn, access_token_from, access_token, invalidate_token,
}
use esignet_relay_authentica.Provider.Lookup.{
  trim_slashes, lookup_body, lookup_query, refused, domain_data, read_answer, registry_lookup,
}
use esignet_relay_authentica.Provider.Identity.{
  Login, valid_request, verdict, account_ok, opened_at, push_source, push_field, fields_from,
  release, release_from, claim_supported, supported_claims, authenticate, get_attributes, subject,
}

-- Everything that the tests run.
unfoldable pub runs : Unit {0}
unfolding sanitize valid_utf8 pieces_from text_beq blank split_on join equal_fold valid_text
    valid_binding binding_beq quote marshal marshal_object sort_members insert_sorted text_lt
    same_name field_from parse_scope valid_scope_token enter settle encode psut psut_tuple field_of
    set_field decode_members marshal_state decode_state redecode context_map valid_subject bound_to
    checked restore ◌>>=◌ ◌>>◌ read_limited request decode_json token_response scope_granted
    acceptable capped token_form acquire access_turn access_token_from access_token invalidate_token
    trim_slashes lookup_body lookup_query refused domain_data read_answer registry_lookup
    valid_request verdict account_ok opened_at push_source push_field fields_from release
    release_from claim_supported supported_claims authenticate get_attributes subject contains
    insert lookup marshal_strings marshal_int
runs = tt

abbrev pub sample : Config
sample = record {
  subject_id_type = txt "uin";
  psut_secret_file = txt "f";
  breg = record {
    base_url = txt "b/";
    route = txt "r";
    selector = txt "s";
    selector_field = txt "uin";
    access_profile = [];
    provisioned_fields = txt "uin" ∷ txt "n" ∷ [];
    account_check_fields = txt "uin" ∷ [];
  };
  token_client = record {
    token_endpoint = txt "t";
    assertion_audience = txt "a";
    client_id = txt "c";
    private_key_file = txt "k";
    key_id = txt "i";
    resource = txt "urn";
    scopes = txt "x" ∷ [];
    assertion_ttl_seconds = pos 120;
    token_cache_max_seconds = pos 300;
  };
  claim_map = (txt "sub", txt "$psut") ∷ (txt "name", txt "n") ∷ [];
  http = record {
    timeout_seconds = pos 10;
    max_response_bytes = pos 8;
    allow_insecure_http = false;
    ca_file = [];
  };
  demo = record {
    static_otp_enabled = false;
    static_otp_file = [];
    mailpit = record { enabled = true; smtp_address = []; sender = []; recipient = [] };
  };
}

abbrev pub token_json : Value
token_json = obj (
    member (txt "access_token") (str (txt "tok")) (
      member (txt "token_type") (str (txt "bearer"))
        (member (txt "expires_in") (int (pos 900)) (member (txt "scope") (str (txt "y x")) end))))

abbrev pub record_json : Value
record_json = obj (
    member (txt "data")
      (obj (
        member (txt "domainData")
          (obj (member (txt "uin") (str (txt "7")) (member (txt "n") (str (txt "N")) end))) end))
      end)

abbrev pub answer_to : List Outgoing → Outgoing → Option Response
answer_to log (token_request endpoint form) =
    some (record { status = 200; body = txt "T"; breaks = false })
answer_to log (lookup_request base route query body bearer) =
    some (record { status = 200; body = txt "D"; breaks = false })

-- An environment in which all goes well at the second 1000.
abbrev pub good : Env
good = record {
  clock = λ n. 1000 * second;
  ended = λ n. false;
  others = λ n cache. cache;
  flights = [];
  builds = λ out. true;
  http = answer_to;
  parse = λ raw. if raw == txt "T" then some (token_json, 10 ∷ []) else some (record_json, []);
  assertion = λ client audience since until. some (txt "j");
  hmac = λ key message. key;
  verify = λ r. none;
  send_otp = λ r. none;
}

abbrev pub deaf : Env
deaf = record good { verify = λ r. some challenge_failed }

abbrev pub caller : Binding
caller = record { relying_party_id = txt "p"; client_id = txt "q"; transaction_id = txt "x" }

abbrev pub attempt : ChallengeRequest
attempt = record {
  identifier = txt "7";
  identifier_type = txt "uin";
  challenge = txt "111111";
  binding = caller;
}

abbrev pub idle : World
idle = record { looks = 0; log = []; cache = empty_cache }

abbrev pub key : Text
key = 1 ∷ 2 ∷ []

abbrev pub session : AuthContext
session = opened 1000 (txt "7") (txt "uin") caller

abbrev pub sample_login : Login
sample_login = record { subject = psut good.hmac key session; context = context_map session }

abbrev pub claims : List Text
claims = txt "name" ∷ txt "other" ∷ txt "sub" ∷ []

abbrev pub consented : List (Text × Value)
consented = (txt "name", str (txt "N")) ∷ (txt "sub", str (psut good.hmac key session)) ∷ []

abbrev pub text_of : Option Text → Text
text_of none = []
text_of (some t) = t
