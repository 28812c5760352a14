-- ===== src/Provider/Lookup.antt =====
-- provider/http.go, `lookup`: one query of the registry.
use esignet_relay_authentica.Prelude.{
  ℕ, ◌&&◌, ◌||◌, not, Option, none, some, List, [], ◌∷◌, eqb, if◌then◌else◌, ◌==◌,
}
use esignet_relay_authentica.Text.{Text, txt, text_eq, is_empty, join}
use esignet_relay_authentica.Types.{invalid_request, subject_denied, unavailable}
use esignet_relay_authentica.Json.{
  Value, str, obj, end, member, marshal, into_text, into_map, into_struct,
}
use esignet_relay_authentica.Config.{Config}
use esignet_relay_authentica.Provider.Runtime.{
  Outgoing, lookup_request, Env, Action, ◌>>=◌, ◌>>◌, fail, require, expect, mask,
}
use esignet_relay_authentica.Provider.Http.{request, access_token, invalidate_token, decode_json}

-- `strings.TrimRight(s, "/")`.
unfoldable pub trim_slashes : Text → Text
trim_slashes [] = []
trim_slashes (b ∷ s) =
    let rest = trim_slashes s in if eqb b b'/' && is_empty rest then [] else b ∷ rest

abbrev or_empty : Option Text → Text
or_empty none = []
or_empty (some t) = t

-- The body; its error is dropped, and strings are always written.
unfoldable pub lookup_body : Config → Text → Text
lookup_body c id = or_empty (
    marshal (
      obj (
        member (txt "selector") (str c.breg.selector)
          (member (txt "values") (obj (member c.breg.selector_field (str id) end)) end))))

unfoldable pub lookup_query : Config → List Text → List (Text × Text)
lookup_query c fields =
    (txt "$select", join (txt ",") fields)
    ∷ (if is_empty c.breg.access_profile
        then []
        else (txt "accessProfile", c.breg.access_profile) ∷ [])

abbrev pub lookup_outgoing : Config → Text → Text → List Text → Outgoing
lookup_outgoing c token id fields =
    lookup_request (trim_slashes c.breg.base_url) c.breg.route (lookup_query c fields)
      (lookup_body c id) token

-- What the code of a problem means.
unfoldable pub refused : Env → Text → Text → Action (List (Text × Value))
unfolding invalidate_token
refused env token code =
    if code == txt "lookup.unresolved" || code == txt "resource.not_found"
    then fail subject_denied
    else (if code == txt "authentication.refused"
        then invalidate_token env token >> fail unavailable
        else fail unavailable)

-- `out.Data.DomainData`, or none where it is nil or the response does not decode.
unfoldable pub domain_data : Value → Option (List (Text × Value))
domain_data v = elim (into_struct (txt "data") (into_struct (txt "domainData") into_map) v none) [
  | none ↦ none
  | some given ↦ given
]

abbrev problem_code : Value → Option Text
problem_code v = into_struct (txt "code") into_text v []

-- What the answer of the registry means.
unfoldable pub read_answer : Env → Text → ℕ × Text → Action (List (Text × Value))
read_answer env token (status, raw) =
    if eqb status 200
    then expect (decode_json env raw domain_data) unavailable
    else (do code ← expect (decode_json env raw problem_code) unavailable; refused env token code)

-- `p.lookup`.
unfoldable pub registry_lookup : Env → Config → Text → List Text → Action (List (Text × Value))
registry_lookup env c id fields = do
  require (not (is_empty fields)) invalid_request
  token ← mask unavailable (access_token env c)
  let out = lookup_outgoing c token id fields
  require (env.builds out) unavailable
  answer ← request env c out
  read_answer env token answer
