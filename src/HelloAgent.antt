-- ===== src/HelloAgent.antt =====
-- examples/hello-agent/main.go: an agent that serves a card and answers every message with a text.
-- The handlers of github.com/a2aproject/a2a-go are parameters.
pub mod Laws
use a2a_registry.Common.{
  ℕ, String, ◌<>◌, List, [], ◌∷◌, Bool, false, Option, none, some, ◌==◌, if◌then◌else◌,
}
use a2a_registry.Common.Int32.{ℤ, pos}
use a2a_registry.Platform.{
  AgentCard, new_agent_interface, transport_protocol_json_rpc, Std, CommandLine, or_default,
}
use a2a_registry.Handler.Http.{Request}
use a2a_registry.Resolver.{HttpResponse}

-- The content of a part, as far as the executor tells it.
pub data Content : Type 0 where
  text : String → Content
  other : Content

pub record Message : Type 0 where
  pub parts : List Content

pub data MessageRole : Type 0 where
  message_role_agent : MessageRole

-- `a2a.NewMessage` of a role and parts.
pub data Event : Type 0 where
  new_message : MessageRole → List Content → Event

-- What an executor does: the events that it yields for a message, and for the end of a task.
pub record Executor : Type 0 where
  pub execute : Option Message → List Event
  pub cancel : Option Message → List Event

pub record A2asrv : Type 0 where
  pub well_known_agent_card_path : String
  pub static_agent_card_handler : AgentCard → Request → HttpResponse
  pub json_rpc_handler : Executor → Request → HttpResponse

-- `http.NotFound`.
abbrev pub not_found : HttpResponse
not_found = record { status_code = 404; body = "404 page not found\n" }

-- The end of the process: `log.Fatalf` after `net.Listen` or after `http.Serve`, which returns only
-- with an error.
pub data Exit : Type 0 where
  failed_to_bind server_stopped : String → Exit

-- The loop over the parts of a message.
unfoldable pub text_of : List Content → String → String
text_of [] user_text = user_text
text_of (text s ∷ parts) user_text = text_of parts (user_text <> s)
text_of (other ∷ parts) user_text = text_of parts user_text

abbrev pub text_in : Option Message → String
unfolding text_of
text_in none = ""
text_in (some m) = text_of m.parts ""

-- `trim_space` is `strings.TrimSpace`.
module _ (trim_space : String → String) where
  abbrev pub or_hello : String → String
  or_hello user_text = if trim_space user_text == "" then "Hello" else user_text

  abbrev pub greeting : String → String → String
  greeting agent_name user_text =
      "🤖 ["
      <> (agent_name
          <> ("] 收到你的消息: \"" <> (trim_space user_text <> "\"。你好！我是运行在 Kubernetes 上的 A2A Agent。")))

  unfoldable pub execute : String → Option Message → List Event
  execute agent_name message =
      new_message message_role_agent (text (greeting agent_name (or_hello (text_in message))) ∷ [])
      ∷ []

  unfoldable pub cancel : Option Message → List Event
  cancel message = []

  unfoldable pub executor : String → Executor
  executor agent_name = record { execute = execute agent_name; cancel = cancel }

-- `os.Getenv` gives the empty text for a variable that is not set.
unfoldable pub get_env : (String → String) → String → String → String
get_env getenv key fallback = if getenv key == "" then fallback else getenv key

pub record Flags : Type 0 where
  pub port : ℤ
  pub name : String
  pub desc : String
  pub skill_id : String

unfoldable pub parse_flags : CommandLine → (String → String) → Flags
unfolding get_env
parse_flags args getenv = record {
  port = or_default (pos 9001) (args.int_flag "port");
  name = or_default (get_env getenv "AGENT_NAME" "Hello Agent") (args.string_flag "name");
  desc =
      or_default (get_env getenv "AGENT_DESC" "A simple demo A2A agent") (args.string_flag "desc");
  skill_id = or_default (get_env getenv "AGENT_SKILL_ID" "hello") (args.string_flag "skill-id");
}

unfoldable pub agent_card : Std → Flags → AgentCard
agent_card std f = record {
  name = f.name;
  description = f.desc;
  version = "1.0.0";
  supported_interfaces =
      new_agent_interface ("http://0.0.0.0:" <> (std.format_int f.port <> "/invoke"))
        transport_protocol_json_rpc
      ∷ [];
  capabilities = record { streaming = false; push_notifications = false };
  skills =
      record {
        id = f.skill_id;
        name = f.name;
        description = f.desc;
        tags = "demo" ∷ "hello" ∷ "example" ∷ [];
        examples = "Hello!" ∷ "Who are you?" ∷ "Say hi" ∷ [];
      }
      ∷ [];
  default_input_modes = "text" ∷ [];
  default_output_modes = "text" ∷ [];
}

module _ (std : Std) (srv : A2asrv) (trim_space : String → String) where
  -- The two patterns of the `ServeMux`, which match whole paths; at clean paths, for which it makes
  -- no redirect.
  unfoldable pub serve : Flags → Request → HttpResponse
  unfolding agent_card executor
  serve f r =
      if r.path == "/invoke"
      then srv.json_rpc_handler (executor trim_space f.name) r
      else if r.path == srv.well_known_agent_card_path
      then srv.static_agent_card_handler (agent_card std f) r
      else not_found

  abbrev served : (Flags → (Request → HttpResponse) → String) → Flags → Option String → Exit
  served stop f none = server_stopped (stop f (serve f))
  served stop f (some e) = failed_to_bind e

  -- `listen` is the error of `net.Listen` at an address, or none, and `stop` the error with which
  -- `http.Serve` of a handler ends.
  unfoldable pub main :
      CommandLine
      → (String → String)
      → (String → Option String)
      → (Flags → (Request → HttpResponse) → String)
      → Exit
  unfolding parse_flags
  main args getenv listen stop =
      let f = parse_flags args getenv in served stop f (listen (":" <> std.format_int f.port))
