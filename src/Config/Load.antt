-- ===== src/Config/Load.antt =====
-- `readBounded`, `hasTopLevelKey` and `LoadConfig`. The file's bytes are an argument, `none` where it
-- cannot be opened or read; the YAML library is a parameter.
use esignet_relay_authentica.Prelude.{
  ℕ, ◌≤◌, ◌≡◌, refl, Bool, true, false, ◌||◌, not, Option, none, some, ltb, arith, ◌==◌,
  if◌then◌else◌, length, Option-cases, inl, inr,
}
use esignet_relay_authentica.Text.{Text, txt, text_eq}
use esignet_relay_authentica.Config.Defs.{Config, defaults}
use esignet_relay_authentica.Config.Checks.{Net}
use esignet_relay_authentica.Config.Validate.{validate}
use esignet_relay_authentica.Config.Accepted.{IsAccepted, validate-IsAccepted}

unfoldable pub read_bounded : Option Text → ℕ → Option Text
read_bounded none limit = none
read_bounded (some b) limit = if ltb limit (length b) then none else some b

-- `yaml.Node`.
pub data Kind : Type 0 where
  document sequence mapping scalar alias : Kind

mutual
  pub data Node : Type 0 where
    node : Kind → Text → Nodes → Node

  pub data Nodes : Type 0 where
    end : Nodes
    also : Node → Nodes → Nodes

abbrev value_is : Text → Node → Bool
value_is name (node kind value content) = value == name

-- The loop over the keys of a mapping, which stand at even places.
key_in : Text → Nodes → Bool
key_in name (also key (also value rest)) = value_is name key || key_in name rest
key_in name _ = false

unfoldable pub has_top_level_key : Node → Text → Bool
unfolding key_in
has_top_level_key (node kind value (also (node Kind.mapping tag content) end)) name =
    key_in name content
has_top_level_key _ name = false

-- What the YAML library makes of the bytes: the node of the first document, the strict decoding of
-- the first document, and whether nothing follows it.
pub record Yaml : Type 0 where
  pub parse : Text → Option Node
  pub decode_known : Text → Option Config
  pub at_end : Text → Bool

-- A value or an error's message.
pub data Outcome (A : Type 0) : Type 0 where
  done : A → Outcome A
  failed : Text → Outcome A

abbrev validated : Net → Config → Outcome Config
validated net c = elim (validate net c) [ none ↦ done c | some message ↦ failed message ]

abbrev decoded : Net → Yaml → Text → Option Config → Outcome Config
decoded net yaml b none = failed (txt "configuration YAML invalid")
decoded net yaml b (some c) =
    if not (yaml.at_end b)
    then failed (txt "configuration must contain one YAML document")
    else validated net (defaults c)

abbrev parsed : Net → Yaml → Text → Option Node → Outcome Config
parsed net yaml b none = failed (txt "configuration YAML invalid")
parsed net yaml b (some tree) =
    if has_top_level_key tree (txt "mint")
    then failed (txt "configuration invalid: mint is retired; use token_client")
    else decoded net yaml b (yaml.decode_known b)

abbrev available : Net → Yaml → Option Text → Outcome Config
available net yaml none = failed (txt "configuration file unavailable")
available net yaml (some b) = parsed net yaml b (yaml.parse b)

unfoldable pub load_config : Net → Yaml → Option Text → Outcome Config
load_config net yaml file = available net yaml (read_bounded file 1_048_576)

-- `LoadConfigFromEnv`, with the value of its environment variable and the files as arguments.
abbrev pub load_config_from_env : Net → Yaml → (Text → Option Text) → Text → Outcome Config
load_config_from_env net yaml read path = load_config net yaml (read path)

-- A configuration that `LoadConfig` returns is the decoded one document of a file of at most a
-- mebibyte without a top-level `mint` key, with the defaults filled in, and it is accepted.
pub record IsLoaded (net : Net) (yaml : Yaml) (file : Option Text) (c : Config) : Type 0 where
  pub bytes : Text
  pub read : file ≡ some bytes
  pub small : length bytes ≤ 1_048_576
  pub tree : Node
  pub parses : yaml.parse bytes ≡ some tree
  pub current : has_top_level_key tree (txt "mint") ≡ false
  pub given : Config
  pub decodes : yaml.decode_known bytes ≡ some given
  pub alone : yaml.at_end bytes ≡ true
  pub filled : c ≡ defaults given
  pub accepted : IsAccepted c

validated-eq-done :
    (net : Net) (d c : Config) → validated net d ≡ done c → (c ≡ d) × (validate net d ≡ none)
validated-eq-done net d c h = ground arith

pub load_config-IsLoaded :
    (net : Net) (yaml : Yaml) (file : Option Text) (c : Config)
    → load_config net yaml file ≡ done c
    → IsLoaded net yaml file c
unfolding load_config read_bounded
load_config-IsLoaded net yaml none c h = cc
load_config-IsLoaded net yaml (some b) c h = elim (Option-cases (yaml.parse b)) [
  | inl no_node ↦ absurd (ground arith)
  | inr (tree, parses) ↦ elim (Option-cases (yaml.decode_known b)) [
    | inl no_config ↦ absurd (ground arith)
    | inr (given, decodes) ↦
        let (filled, valid) = validated-eq-done net (defaults given) c (ground arith) in
        record {
          bytes = b;
          read = refl;
          small = ground arith;
          tree = tree;
          parses = parses;
          current = ground arith;
          given = given;
          decodes = decodes;
          alone = ground arith;
          filled = filled;
          accepted = validate-IsAccepted net c (rw filled valid);
        }
  ]
]
