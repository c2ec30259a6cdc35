-- ===== src/Platform/Memory.antt =====
-- A small platform: a cluster in memory, and Go's library functions as far as examples need them.
-- It is there to run the models and to meet the hypotheses that theorems make on the client.
pub mod Laws
use Prim.Native.Char.{Char, code}
use a2a_registry.Common.{
  String, ◌<>◌, List, [], ◌∷◌, Bool, true, false, not, ◌&&◌, Option, none, some, Result, ok, err,
  ◌==◌, nat_eq, filter, find?, if◌then◌else◌,
}
use a2a_registry.Api.{ObjectKey, ObjectMeta, A2aAgent, A2aRegistry}
use a2a_registry.Platform.Card.{AgentCard}
use a2a_registry.Platform.Stdlib.{Std}
use a2a_registry.Platform.Client.{
  KubeError, ListOption, in_namespace, matching_labels_selector, KubeClient, ControllerUtil,
}

pub record MemoryCluster : Type 0 where
  pub agents : List A2aAgent
  pub registries : List A2aRegistry
  pub secrets : List (String × List (String × String))

abbrev not_found : KubeError
not_found = record { is_not_found = true; message = "not found" }

abbrev exists : KubeError
exists = record { is_not_found = false; message = "already exists" }

abbrev has_key : ObjectKey → ObjectMeta → Bool
has_key key m = m.name == key.name && m.namespace == key.namespace

abbrev key_of : ObjectMeta → ObjectKey
key_of m = record { namespace = m.namespace; name = m.name }

abbrev or_not_found : {A : Type 0} → Option A → Result KubeError A
or_not_found none = err not_found
or_not_found (some a) = ok a

-- Label selectors select everything here.
abbrev selects : ListOption Unit → A2aAgent → Bool
selects (in_namespace ns) a = a.metadata.namespace == ns
selects (matching_labels_selector s) a = true

abbrev list_with : List (ListOption Unit) → List A2aAgent → List A2aAgent
list_with [] all = all
list_with (o ∷ os) all = list_with os (filter (selects o) all)

abbrev put_agent : A2aAgent → List A2aAgent → List A2aAgent
put_agent a [] = []
put_agent a (b ∷ all) = (if has_key (key_of a.metadata) b.metadata then a else b) ∷ put_agent a all

abbrev put_registry : A2aRegistry → List A2aRegistry → List A2aRegistry
put_registry g [] = []
put_registry g (b ∷ all) =
    (if b.metadata.name == g.metadata.name then g else b) ∷ put_registry g all

abbrev find_agent : MemoryCluster → ObjectKey → Option A2aAgent
find_agent c key = find? (λ a. has_key key a.metadata) c.agents

abbrev find_registry : MemoryCluster → String → Option A2aRegistry
find_registry c name = find? (λ g. g.metadata.name == name) c.registries

abbrev stored_agent : MemoryCluster → Option A2aAgent → Result KubeError A2aAgent × MemoryCluster
stored_agent c none = (err not_found, c)
stored_agent c (some a) = (ok a, record c { agents = put_agent a c.agents })

abbrev stored_registry :
    MemoryCluster → Option A2aRegistry → Result KubeError A2aRegistry × MemoryCluster
stored_registry c none = (err not_found, c)
stored_registry c (some g) = (ok g, record c { registries = put_registry g c.registries })

abbrev on_some : {A : Type 0} → (A → A) → Option A → Option A
on_some f none = none
on_some f (some a) = some (f a)

abbrev pub memory_client : KubeClient MemoryCluster Unit
memory_client = record {
  get_agent = λ c key. or_not_found (find_agent c key);
  list_agents = λ c os. ok (list_with os c.agents);
  create_agent = λ c a. elim (find_agent c (key_of a.metadata)) [
    | none ↦ (ok a, record c { agents = a ∷ c.agents })
    | some b ↦ (err exists, c)
  ];
  update_agent = λ c a.
      stored_agent c
        (on_some (λ b. record a { status = b.status }) (find_agent c (key_of a.metadata)));
  status_update_agent = λ c a.
      stored_agent c
        (on_some (λ b. record b { status = a.status }) (find_agent c (key_of a.metadata)));
  delete_agent = λ c key. elim (find_agent c key) [
    | none ↦ (err not_found, c)
    | some b ↦ (ok tt, record c { agents = filter (λ a. not (has_key key a.metadata)) c.agents })
  ];
  get_registry = λ c key. or_not_found (find_registry c key.name);
  list_registries = λ c. ok c.registries;
  update_registry = λ c g.
      stored_registry c
        (on_some (λ b. record g { status = b.status }) (find_registry c g.metadata.name));
  status_update_registry = λ c g.
      stored_registry c
        (on_some (λ b. record b { status = g.status }) (find_registry c g.metadata.name));
  get_secret = λ c key. err not_found;
  parse_selector = λ s. some tt;
}

abbrev is_found : {A : Type 0} → Option A → Bool
is_found none = false
is_found (some _) = true

abbrev pub list_util : ControllerUtil
list_util = record {
  contains_finalizer = λ fs f. is_found (find? (λ g. g == f) fs);
  add_finalizer = λ fs f. f ∷ fs;
  remove_finalizer = λ fs f. filter (λ g. not (g == f)) fs;
}

-- Lower case, for the letters of ASCII.
abbrev pub lower_ascii : Char → Char
lower_ascii c =
    if nat_eq (code c) b'A'
    then "a"
    else if nat_eq (code c) b'B'
    then "b"
    else if nat_eq (code c) b'C'
    then "c"
    else if nat_eq (code c) b'D'
    then "d"
    else if nat_eq (code c) b'E'
    then "e"
    else if nat_eq (code c) b'F'
    then "f"
    else if nat_eq (code c) b'G'
    then "g"
    else if nat_eq (code c) b'H'
    then "h"
    else if nat_eq (code c) b'I'
    then "i"
    else if nat_eq (code c) b'J'
    then "j"
    else if nat_eq (code c) b'K'
    then "k"
    else if nat_eq (code c) b'L'
    then "l"
    else if nat_eq (code c) b'M'
    then "m"
    else if nat_eq (code c) b'N'
    then "n"
    else if nat_eq (code c) b'O'
    then "o"
    else if nat_eq (code c) b'P'
    then "p"
    else if nat_eq (code c) b'Q'
    then "q"
    else if nat_eq (code c) b'R'
    then "r"
    else if nat_eq (code c) b'S'
    then "s"
    else if nat_eq (code c) b'T'
    then "t"
    else if nat_eq (code c) b'U'
    then "u"
    else if nat_eq (code c) b'V'
    then "v"
    else if nat_eq (code c) b'W'
    then "w"
    else if nat_eq (code c) b'X'
    then "x"
    else if nat_eq (code c) b'Y'
    then "y"
    else if nat_eq (code c) b'Z'
    then "z"
    else c

-- A body that is not empty is a card with that name.
abbrev card_named : String → AgentCard
card_named name = record {
  name = name;
  description = "";
  version = "";
  supported_interfaces = [];
  capabilities = record { streaming = false; push_notifications = false };
  skills = [];
  default_input_modes = [];
  default_output_modes = [];
}

abbrev pub ascii_std : Std
ascii_std = record {
  lower_rune = lower_ascii;
  fold_rune = lower_ascii;
  quote = λ s. "'" <> (s <> "'");
  format_int = λ n. "n";
  format_duration = λ n. "t";
  format_rfc3339 = λ t. "t";
  url_scheme = λ s. some "http";
  split_host_port = λ s. none;
  join_host_port = λ h p. h <> (":" <> p);
  atoi_ok = λ s. true;
  base64_encode = λ s. s;
  decode_card = λ s. if s == "" then err "EOF" else ok (card_named s);
  marshal_card = λ c. ok c.name;
  sha256_hex = λ s. s;
}
